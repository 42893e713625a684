-- ===== src/NameServer/Announcing/Audience.antt =====
-- Who is told which address and which token (server/CNameServer.cpp).
use fdbus.Prelude.{
  ℕ, zero, suc, ◌-◌, ◌≤◌, ◌≡◌, ◌↔◌, ◌⊎◌, inl, inr, refl, sym, subst, ◌∙◌, ap, arith, leb, ◌||◌,
  Bool, true, false, some, List, [], ◌∷◌, ◌++◌, length, take, drop, Bool-cases, if_true, if_false,
}
use fdbus.Prelude.Map.Entries.{Has, Has-append, append-Has}
use fdbus.Messages.AddressItem.{AddressItem}
use fdbus.NameServer.{AddressDesc, same_text}
use fdbus.ServiceAddresses.{Network}
use fdbus.NameServer.Requests.{
  check_exportable, populate_address_item, prepare_address, prepare_addresses,
}
use fdbus.NameServer.Announcing.{
  is_ipc, outward, prepare_addresses_to_notify, clamped, populate_tokens_remote,
  populate_tokens_local,
}

-- An address of the list that may be told at a level, as the item that is told.
abbrev pub Told : ℕ → AddressItem → List AddressDesc → Type 0
Told level item descs =
    (desc : AddressDesc) × (Has desc descs
      × ((check_exportable desc level ≡ true) × (item ≡ populate_address_item desc)))

prepare_addresses-Has :
    (level : ℕ) (item : AddressItem) (descs : List AddressDesc) (list : List AddressItem)
    → Has item (prepare_addresses level descs list)
    → Has item list ⊎ Told level item descs
unfolding prepare_addresses prepare_address
prepare_addresses-Has level item [] list h = inl h
prepare_addresses-Has level item (d ∷ ds) list h =
    elim (prepare_addresses-Has level item ds (prepare_address level d list) h) [
      | inr (x, (m, (c, e))) ↦ inr (x, (inr m, (c, e)))
      | inl m ↦ elim (Bool-cases (check_exportable d level)) [
        | inr no_one ↦ inl (subst (Has item) (if_false _ _ no_one) m)
        | inl told ↦
            elim (Has-append item list (populate_address_item d ∷ [])
              (subst (Has item) (if_true _ _ told) m)) [
                | inl p ↦ inl p
                | inr (inl q) ↦ inr (d, (inl refl, (told, q)))
                | inr (inr q) ↦ absurd q
              ]
      ]
    ]

Has-prepare_addresses :
    (level : ℕ) (item : AddressItem) (descs : List AddressDesc) (list : List AddressItem)
    → Has item list ⊎ Told level item descs
    → Has item (prepare_addresses level descs list)
unfolding prepare_addresses prepare_address
Has-prepare_addresses level item [] list (inl h) = h
Has-prepare_addresses level item [] list (inr (x, (m, r))) = absurd m
Has-prepare_addresses level item (d ∷ ds) list (inl h) =
    Has-prepare_addresses level item ds (prepare_address level d list) (
      inl (elim (Bool-cases (check_exportable d level)) [
        | inr no_one ↦ subst (Has item) (sym (if_false _ _ no_one)) h
        | inl told ↦
            subst (Has item) (sym (if_true _ _ told))
              (append-Has item list (populate_address_item d ∷ []) (inl h))
      ]))
Has-prepare_addresses level item (d ∷ ds) list (inr (x, (inl p, (c, e)))) =
    Has-prepare_addresses level item ds (prepare_address level d list) (
      inl (
        subst (Has item) (sym (if_true _ _ (ap (λ y. check_exportable y level) (sym p) ∙ c))) (
          append-Has item list (populate_address_item d ∷ [])
            (inr (inl (e ∙ ap populate_address_item p))))))
Has-prepare_addresses level item (d ∷ ds) list (inr (x, (inr m, r))) =
    Has-prepare_addresses level item ds (prepare_address level d list) (inr (x, (m, r)))

module _ (n : Network) where
  abbrev pub inner : AddressDesc → Bool
  inner desc = is_ipc n desc || same_text desc.address.addr n.local_host

  outward-Has :
      (x : AddressDesc) (descs : List AddressDesc)
      → Has x (outward n descs)
      → Has x descs × (inner x ≡ false)
  unfolding outward
  outward-Has x [] h = absurd h
  outward-Has x (d ∷ ds) h = elim (Bool-cases (inner d)) [
    | inl hidden ↦
        let (m, o) = outward-Has x ds (subst (Has x) (if_true _ _ hidden) h) in (inr m, o)
    | inr out ↦ elim (subst (Has x) (if_false _ _ out) h) [
      | inl p ↦ (inl p, ap inner p ∙ out)
      | inr q ↦ (let (m, o) = outward-Has x ds q in (inr m, o))
    ]
  ]

  Has-outward :
      (x : AddressDesc) (descs : List AddressDesc)
      → Has x descs
      → inner x ≡ false
      → Has x (outward n descs)
  unfolding outward
  Has-outward x [] h o = h
  Has-outward x (d ∷ ds) (inl p) o =
      subst (Has x) (sym (if_false _ _ (ap inner (sym p) ∙ o))) (inl p)
  Has-outward x (d ∷ ds) (inr m) o = elim (Bool-cases (inner d)) [
    | inl hidden ↦ subst (Has x) (sym (if_true _ _ hidden)) (Has-outward x ds m o)
    | inr out ↦ subst (Has x) (sym (if_false _ _ out)) (inr (Has-outward x ds m o))
  ]

  -- The addresses that are announced to other hosts are exactly those of the table that are neither IPC nor
  -- the local host and that may be exported at the level of the domain.
  pub remote_list_iff :
      (level : ℕ) (old : List ℕ) (tbl : List AddressDesc) (item : AddressItem)
      → Has item (prepare_addresses_to_notify n level old tbl).remote_list ↔ (
          (desc : AddressDesc) × ((Has desc tbl × (inner desc ≡ false))
            × ((check_exportable desc level ≡ true) × (item ≡ populate_address_item desc))))
  unfolding prepare_addresses_to_notify
  remote_list_iff level old tbl item = (
    λ h. elim (prepare_addresses-Has level item (outward n tbl) [] h) [
      | inl m ↦ absurd m
      | inr (x, (m, r)) ↦ (x, (outward-Has x tbl m, r))
    ],
    λ t.
        Has-prepare_addresses level item (outward n tbl) []
          (inr (t.0, (Has-outward t.0 tbl t.1.0.0 t.1.0.1, t.1.1))),
  )

take_all : {A : Type 0} (k : ℕ) (xs : List A) → length xs ≤ k → take k xs ≡ xs
take_all zero [] h = refl
take_all (suc k) [] h = refl
take_all zero (x ∷ xs) h = absurd (omega arith)
take_all (suc k) (x ∷ xs) h = ap (λ l. x ∷ l) (take_all k xs (omega arith))

take-suc : {A : Type 0} (k : ℕ) (xs : List A) → take (suc k) xs ≡ take k xs ++ take 1 (drop k xs)
take-suc zero [] = refl
take-suc zero (x ∷ xs) = refl
take-suc (suc k) [] = refl
take-suc (suc k) (x ∷ xs) = ap (λ l. x ∷ l) (take-suc k xs)

one_after :
    (k : ℕ) (t : List ℕ) (ts : List (List ℕ))
    → k ≤ length ts
    → (last : List ℕ) × (take 1 (drop k (t ∷ ts)) ≡ last ∷ [])
one_after zero t ts h = (t, refl)
one_after (suc k) t [] h = absurd (omega arith)
one_after (suc k) t (u ∷ ts) h = one_after k u ts (omega arith)

-- Of at least one token, a remote session with a level gets exactly those up to its level, all if there are
-- fewer, and a local one gets exactly one: the last of these.
pub populate_tokens-take :
    (level : ℕ) (token : List ℕ) (tokens : List (List ℕ))
    → (populate_tokens_remote (some level) (token ∷ tokens) ≡ take (suc level) (token ∷ tokens))
      × ((others : List (List ℕ)) × (last : List ℕ) × ((populate_tokens_remote
                (some level)
                (token ∷ tokens)
              ≡ others ++ last ∷ [])
            × (populate_tokens_local (some level) (token ∷ tokens) ≡ last ∷ [])))
unfolding populate_tokens_remote populate_tokens_local
populate_tokens-take level t ts =
    let k = clamped level (t ∷ ts) in
    let (last, e) = one_after k t ts (ground arith) in
    (
      elim (Bool-cases (leb (suc (length ts)) level)) [
        | inl high ↦ rw high (
            take_all (suc ((suc (length ts)) - 1)) (t ∷ ts) (omega arith)
            ∙ sym (take_all (suc level) (t ∷ ts) (ground (arith, high))))
        | inr low ↦ rw low refl
      ],
      (take k (t ∷ ts), last, (take-suc k (t ∷ ts) ∙ ap (λ l. take k (t ∷ ts) ++ l) e, e)),
    )
