-- ===== src/NameServer/Counting.antt =====
-- How many services are registered, and that erasing one leaves one less (server/CNameServer.cpp).
use fdbus.Prelude.{
  ℕ, suc, ◌+◌, ◌≡◌, inl, inr, refl, subst, ap, arith, none, some, List, [], ◌∷◌, length, Bool-cases,
}
use fdbus.Prelude.Map.{
  Map, Eq, find, insert, erase, update_at, put_back, nat_eq, Distinct, find-Values,
}
use fdbus.Prelude.Map.Tidy.{Inner}
use fdbus.NameServer.{SvcRegistryEntry, SvcRegistryTbl, RegistryTbl, erase_service, text_eq}
use fdbus.NameServer.Registry.{entry_at, IsTidy, entry_at-table, erase_service-found}

abbrev pub total : RegistryTbl → ℕ
total [] = 0
total ((n, tbl) ∷ rest) = length tbl + total rest

module _ {K V : Type 0} ⦃e : Eq K⦄ where
  erase-missing : (k : K) (m : Map K V) → find k m ≡ none → erase k m ≡ m
  unfolding erase find
  erase-missing k [] h = refl
  erase-missing k ((j, v) ∷ m) h = ground (arith, h, erase-missing k m)

  length-erase :
      (k : K) (v : V) (m : Map K V)
      → Distinct m
      → find k m ≡ some v
      → suc (length (erase k m)) ≡ length m
  unfolding erase find
  length-erase k v [] d h = absurd (ground (arith, h))
  length-erase k v ((j, w) ∷ m) d h = elim (Bool-cases (e.beq j k)) [
    | inl hit ↦
        let same : j ≡ k = (e.beq_iff j k).0 hit in
        let gone = erase-missing k m (subst (λ i. find i m ≡ none) same d.0) in rw (hit, gone) refl
    | inr miss ↦ rw miss (ap suc (length-erase k v m d.1 (rw miss at h)))
  ]

total-erase :
    (n : List ℕ) (tbl : SvcRegistryTbl) (r : RegistryTbl)
    → Distinct r
    → find n r ≡ some tbl
    → total r ≡ length tbl + total (erase n r)
unfolding erase find
total-erase n tbl [] d h = absurd (ground (arith, h))
total-erase n tbl ((m, t) ∷ rest) d h = elim (Bool-cases (text_eq.beq m n)) [
  | inl hit ↦
      let same : m ≡ n = (text_eq.beq_iff m n).0 hit in
      let gone = erase-missing n rest (subst (λ i. find i rest ≡ none) same d.0) in
      rw (hit, gone) (ground (arith, hit, h))
  | inr miss ↦ rw miss (ground (arith, total-erase n tbl rest d.1 (rw miss at h)))
]

total-insert :
    (n : List ℕ) (tbl : SvcRegistryTbl) (r : RegistryTbl)
    → Distinct r
    → total (insert n tbl r) ≡ length tbl + total (erase n r)
unfolding erase insert
total-insert n tbl [] d = refl
total-insert n tbl ((m, t) ∷ rest) d = elim (Bool-cases (text_eq.beq m n)) [
  | inl hit ↦
      let same : m ≡ n = (text_eq.beq_iff m n).0 hit in
      let gone = erase-missing n rest (subst (λ i. find i rest ≡ none) same d.0) in
      rw (hit, gone) refl
  | inr miss ↦ rw miss (ground (arith, total-insert n tbl rest d.1))
]

total-put_back :
    (n : List ℕ) (tbl : SvcRegistryTbl) (r : RegistryTbl)
    → Distinct r
    → total (put_back n tbl r) ≡ length tbl + total (erase n r)
unfolding put_back
total-put_back n [] r d = omega arith
total-put_back n (x ∷ tbl) r d = total-insert n (x ∷ tbl) r d

pub total-erase_service :
    (n : List ℕ) (i : ℕ) (r : RegistryTbl) (x : SvcRegistryEntry)
    → IsTidy r
    → entry_at n i r ≡ some x
    → suc (total (erase_service n i r).1) ≡ total r
unfolding update_at
total-erase_service n i r x h f =
    let (tbl, (there, here)) = entry_at-table n i r x f in
    let d = (find-Values (Inner Distinct) n tbl r h.1 there).1 in
    rw (erase_service-found n i r x f, there, update_at)
      (ground (
        arith,
        total-put_back n (erase i tbl) r h.0,
        length-erase i x tbl d here,
        total-erase n tbl r h.0 there,
      ))
