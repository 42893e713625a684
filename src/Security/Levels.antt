-- ===== src/Security/Levels.antt =====
-- The level of a user by the groups (security/CServerSecurityConfig.cpp).
use fdbus.Prelude.{
  ℕ, ◌≡◌, ◌⊎◌, inl, inr, refl, sym, subst, ◌∙◌, ap, arith, true, false, Option, none, some, List,
  [], ◌∷◌, Bool-cases, Option-cases,
}
use fdbus.Prelude.Map.{Map, nat_eq, find}
use fdbus.Prelude.Map.Entries.{Has}
use fdbus.Security.{ServerSecCfg, above, higher, max_level, or_default, get_group_security_level}

-- No group of the list has a level.
abbrev pub Unlisted : Map ℕ (Option ℕ) → List ℕ → Type 0
Unlisted tbl groups = (g : ℕ) → Has g groups → find g tbl ≡ none

-- A level that a group of the list has, and that no group of it exceeds.
abbrev pub Greatest : Map ℕ (Option ℕ) → List ℕ → Option ℕ → Type 0
Greatest tbl groups level =
    ((g : ℕ) × (Has g groups × (find g tbl ≡ some level)))
    × ((g : ℕ) (l : Option ℕ) → Has g groups → find g tbl ≡ some l → above l level ≡ false)

-- The same for the groups of a list and a level that was found before.
abbrev From : Map ℕ (Option ℕ) → List ℕ → Option ℕ → Option ℕ → Type 0
From tbl groups max level =
    ((level ≡ max) ⊎ ((g : ℕ) × (Has g groups × (find g tbl ≡ some level))))
    × ((above max level ≡ false)
        × ((g : ℕ) (l : Option ℕ) → Has g groups → find g tbl ≡ some l → above l level ≡ false))

above-false_trans : (a b c : Option ℕ) → above a b ≡ false → above b c ≡ false → above a c ≡ false
above-false_trans none b c h k = refl
above-false_trans (some a) none c h k = absurd (ground (arith, h))
above-false_trans (some a) (some b) none h k = absurd (ground (arith, k))
above-false_trans (some a) (some b) (some c) h k = ground (arith, h, k)

above_self : (a : Option ℕ) → above a a ≡ false
above_self none = refl
above_self (some a) = ground arith

above-after : (a b : Option ℕ) → above a b ≡ true → above b a ≡ false
above-after none b h = absurd (ground (arith, h))
above-after (some a) none h = refl
above-after (some a) (some b) h = ground (arith, h)

at_most :
    (a l next : Option ℕ)
    → above a next ≡ false
    → ◌≡◌ {A = Option (Option ℕ)} (some a) (some l)
    → above l next ≡ false
at_most a l next h e =
    let same : a ≡ l = ap (or_default none) e in subst (λ x. above x next ≡ false) same h

-- What the next group makes of a level found before.
higher-cases :
    (o : Option (Option ℕ)) (max : Option ℕ)
    → (next : Option ℕ) × ((higher o (some max) ≡ some next)
        × (((next ≡ max) ⊎ (o ≡ some next))
            × ((above max next ≡ false) × ((l : Option ℕ) → o ≡ some l → above l next ≡ false))))
higher-cases none max =
    (max, (refl, (inl refl, (above_self max, λ l e. absurd (ground (arith, e))))))
higher-cases (some a) max = elim (Bool-cases (above a max)) [
  | inl e ↦ (
    a,
    (rw e refl, (inr refl, (above-after a max e, λ l same. at_most a l a (above_self a) same))),
  )
  | inr e ↦ (max, (rw e refl, (inl refl, (above_self max, λ l same. at_most a l max e same))))
]

max_level-From :
    (tbl : Map ℕ (Option ℕ)) (groups : List ℕ) (max : Option ℕ)
    → (level : Option ℕ) × ((max_level tbl groups (some max) ≡ some level)
        × From tbl groups max level)
unfolding max_level
max_level-From tbl [] max = (max, (refl, (inl refl, (above_self max, λ g l h e. absurd h))))
max_level-From tbl (g ∷ groups) max =
    let (next, (made, (whose, (more, rest)))) = higher-cases (find g tbl) max in
    let (level, (ends, (origin, (least, all)))) = max_level-From tbl groups next in
    let below : (k : ℕ) (l : Option ℕ)
        → Has k (g ∷ groups)
        → find k tbl ≡ some l
        → above l level ≡ false =
      λ k l h e. elim h [
        | inl same ↦
            above-false_trans l next level (rest l (ap (λ j. find j tbl) (sym same) ∙ e)) least
        | inr there ↦ all k l there e
      ] in
    let from : (level ≡ max) ⊎ ((k : ℕ) × (Has k (g ∷ groups) × (find k tbl ≡ some level))) =
      elim origin [
        | inr (k, (there, e)) ↦ inr (k, (inr there, e))
        | inl same ↦ elim whose [
          | inl kept ↦ inl (same ∙ kept)
          | inr e ↦ inr (g, (inl refl, e ∙ ap some (sym same)))
        ]
      ] in
    (
      level,
      (
        ap (max_level tbl groups) made ∙ ends,
        (from, (above-false_trans max next level more least, below)),
      ),
    )

first_higher : (o : Option (Option ℕ)) (l : Option ℕ) → o ≡ some l → higher o none ≡ some l
first_higher none l e = absurd (ground (arith, e))
first_higher (some none) l e = e
first_higher (some (some a)) l e = e

max_level-cases :
    (tbl : Map ℕ (Option ℕ)) (groups : List ℕ)
    → ((max_level tbl groups none ≡ none) × Unlisted tbl groups)
      ⊎ ((level : Option ℕ) × ((max_level tbl groups none ≡ some level)
            × Greatest tbl groups level))
unfolding max_level
max_level-cases tbl [] = inl (refl, λ g h. absurd h)
max_level-cases tbl (g ∷ groups) = elim (Option-cases (find g tbl)) [
  | inl e ↦ elim (max_level-cases tbl groups) [
    | inl (ends, unlisted) ↦ inl (
      ap (λ o. max_level tbl groups (higher o none)) e ∙ ends,
      λ k h. elim h [ inl same ↦ ap (λ j. find j tbl) same ∙ e | inr there ↦ unlisted k there ],
    )
    | inr (level, (ends, ((k, (there, has)), all))) ↦ inr (
      level,
      (
        ap (λ o. max_level tbl groups (higher o none)) e ∙ ends,
        (
          (k, (inr there, has)),
          λ j l h f. elim h [
            | inl same ↦ absurd (ground (arith, sym e ∙ (ap (λ i. find i tbl) (sym same) ∙ f)))
            | inr later ↦ all j l later f
          ],
        ),
      ),
    )
  ]
  | inr (first, e) ↦
      (let (level, (ends, (origin, (least, all)))) = max_level-From tbl groups first in
        inr (
          level,
          (
            ap (max_level tbl groups) (first_higher (find g tbl) first e) ∙ ends,
            (
              elim origin [
                | inl same ↦ (g, (inl refl, e ∙ ap some (sym same)))
                | inr (k, (there, has)) ↦ (k, (inr there, has))
              ],
              λ j l h f. elim h [
                | inl same ↦
                    at_most first l level least (sym e ∙ (ap (λ i. find i tbl) (sym same) ∙ f))
                | inr later ↦ all j l later f
              ],
            ),
          ),
        ))
]

-- The level that a user has by the groups is the default if no group of the user has a level, and otherwise
-- the level of a group of the user that no group of the user exceeds.
pub get_group_security_level-Greatest :
    (groups : List ℕ) (cfg : ServerSecCfg)
    → (Unlisted cfg.cred_sec_level_tbl groups
        × (get_group_security_level groups cfg ≡ cfg.default_level))
      ⊎ Greatest cfg.cred_sec_level_tbl groups (get_group_security_level groups cfg)
unfolding get_group_security_level
get_group_security_level-Greatest groups cfg =
    elim (max_level-cases cfg.cred_sec_level_tbl groups) [
      | inl (ends, unlisted) ↦ inl (unlisted, ap (or_default cfg.default_level) ends)
      | inr (level, (ends, greatest)) ↦ inr (
          subst (Greatest cfg.cred_sec_level_tbl groups)
            (sym (ap (or_default cfg.default_level) ends)) greatest)
    ]
