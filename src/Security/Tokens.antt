-- ===== src/Security/Tokens.antt =====
-- The tokens of a service and the levels that they stand for (security/CFdbToken.cpp).
use fdbus.Prelude.{
  Option, ℕ, zero, suc, ◌+◌, ◌<◌, ◌≡◌, ◌↔◌, ◌⊎◌, inl, inr, refl, sym, subst, ◌∙◌, ap, arith, true,
  false, none, some, List, [], ◌∷◌, ◌++◌, length, Bool-cases, if_true, if_false, if◌then◌else◌,
  length-append, ◌%◌,
}
use fdbus.Prelude.Map.{is_empty}
use fdbus.NameServer.{text_eq}
use fdbus.Security.{
  first_token, check_security_level, same_token_found, random_string, random_characters, new_token,
  add_tokens, allocate_token, if_drawn,
}

-- The text at an index.
abbrev pub At : ℕ → List (List ℕ) → List ℕ → Type 0
At i [] t = ⊥
At zero (x ∷ xs) t = x ≡ t
At (suc i) (x ∷ xs) t = At i xs t

first_token-At :
    (t : List ℕ) (k : ℕ) (tokens : List (List ℕ)) (i : ℕ)
    → first_token t k tokens ≡ some i
    → (j : ℕ) × ((i ≡ k + j) × At j tokens t)
unfolding first_token
first_token-At t k [] i h = absurd (ground (arith, h))
first_token-At t k (x ∷ xs) i h = elim (Bool-cases (text_eq.beq x t)) [
  | inl e ↦ (zero, (ground (arith, h, e), (text_eq.beq_iff x t).0 e))
  | inr e ↦
      (let (j, (same, there)) =
          first_token-At t (suc k) xs i
            (sym (if_false (some k) (first_token t (suc k) xs) e) ∙ h) in
        (suc j, (omega arith, there)))
]

-- Every token is not empty and is found where it is.
abbrev pub Good : List (List ℕ) → Type 0
Good tokens =
    (t : List ℕ) (i : ℕ) → At i tokens t → (is_empty t ≡ false) × (first_token t 0 tokens ≡ some i)

first_token-append :
    (t u : List ℕ) (k : ℕ) (tokens : List (List ℕ)) (i : ℕ)
    → first_token t k tokens ≡ some i
    → first_token t k (tokens ++ u ∷ []) ≡ some i
unfolding first_token
first_token-append t u k [] i h = absurd (ground (arith, h))
first_token-append t u k (x ∷ xs) i h = ground (arith, first_token-append t u (suc k) xs i, h)

first_token-last :
    (t : List ℕ) (k : ℕ) (tokens : List (List ℕ))
    → same_token_found t tokens ≡ false
    → first_token t k (tokens ++ t ∷ []) ≡ some (k + length tokens)
unfolding first_token
first_token-last t k [] h = ground (arith, (text_eq.beq_iff t t).1 refl)
first_token-last t k (x ∷ xs) h = ground (arith, first_token-last t (suc k) xs, h)

At-append :
    (i : ℕ) (tokens : List (List ℕ)) (t u : List ℕ)
    → At i (tokens ++ u ∷ []) t
    → At i tokens t ⊎ ((i ≡ length tokens) × (u ≡ t))
At-append zero [] t u h = inr (refl, h)
At-append (suc i) [] t u h = absurd h
At-append zero (x ∷ xs) t u h = inl h
At-append (suc i) (x ∷ xs) t u h = elim (At-append i xs t u h) [
  | inl there ↦ inl there
  | inr (e, same) ↦ inr (ap suc e, same)
]

append-Good :
    (u : List ℕ) (tokens : List (List ℕ))
    → Good tokens
    → is_empty u ≡ false
    → same_token_found u tokens ≡ false
    → Good (tokens ++ u ∷ [])
append-Good u tokens good full fresh t i h = elim (At-append i tokens t u h) [
  | inl there ↦
      (let (some_text, found) = good t i there in
        (some_text, first_token-append t u 0 tokens i found))
  | inr (e, same) ↦
      subst (λ x. (is_empty x ≡ false) × (first_token x 0 (tokens ++ u ∷ []) ≡ some i)) same
        (full, first_token-last u 0 tokens fresh ∙ ap some (omega arith))
]

random_characters-full :
    (n : ℕ) (rand : ℕ → ℕ) → zero < n → is_empty (random_characters n rand 0) ≡ false
unfolding random_characters
random_characters-full zero rand h = absurd (omega arith)
random_characters-full (suc n) rand h = refl

checked :
    (t : List ℕ) (tokens : List (List ℕ)) (i : ℕ)
    → (if is_empty t then none else first_token t 0 tokens) ≡ some i
    → first_token t 0 tokens ≡ some i
checked t tokens i e = ground (arith, e)

module _ (token_length : ℕ) (milliseconds : ℕ → ℕ) (rand : ℕ → ℕ → ℕ)
    (long : zero < token_length) where
  abbrev string_at : ℕ → List ℕ
  string_at n = random_string token_length milliseconds rand n

  random_string-full : (n : ℕ) → is_empty (string_at n) ≡ false
  unfolding random_string
  random_string-full n =
      random_characters-full token_length (rand (milliseconds n % 4294967296)) long

  all_seen :
      (fuel n : ℕ) (tokens : List (List ℕ))
      → same_token_found (string_at n) tokens ≡ true
      → ((k : ℕ) → k < fuel → same_token_found (string_at (suc n + k)) tokens ≡ true)
      → (k : ℕ) → k < suc fuel
      → same_token_found (string_at (n + k)) tokens ≡ true
  all_seen fuel n tokens e all zero short =
      ap (λ m. same_token_found (string_at m) tokens) (omega arith) ∙ e
  all_seen fuel n tokens e all (suc k) short =
      ap (λ m. same_token_found (string_at m) tokens) (omega arith) ∙ all k (omega arith)

  -- What becomes of a token: one that is new, or rounds enough to use up the fuel in each of which the
  -- string that was drawn was there already.
  new_token-cases :
      (fuel n : ℕ) (tokens : List (List ℕ))
      → ((t : List ℕ) × (n' : ℕ) × ((new_token token_length milliseconds rand fuel n tokens
              ≡ some (t, n'))
            × ((is_empty t ≡ false) × (same_token_found t tokens ≡ false))))
        ⊎ ((new_token token_length milliseconds rand fuel n tokens ≡ none)
            × ((k : ℕ) → k < fuel → same_token_found (string_at (n + k)) tokens ≡ true))
  unfolding new_token
  new_token-cases zero n tokens = inr (refl, λ k short. absurd (omega arith))
  new_token-cases (suc fuel) n tokens = elim (Bool-cases (same_token_found (string_at n) tokens)) [
    | inr e ↦ inl (string_at n, suc n, (if_false _ _ e, (random_string-full n, e)))
    | inl e ↦ elim (new_token-cases fuel (suc n) tokens) [
      | inl (t, n', (made, rest)) ↦ inl (t, n', (if_true _ _ e ∙ made, rest))
      | inr (stuck, all) ↦ inr (if_true _ _ e ∙ stuck, all_seen fuel n tokens e all)
    ]
  ]

  -- In as many rounds as there is fuel, no string was drawn that the first tokens do not have already.
  abbrev pub Stuck : ℕ → ℕ → Type 0
  Stuck levels fuel =
      (first : List (List ℕ)) × (n : ℕ) × ((length first < levels)
        × ((k : ℕ) → k < fuel → same_token_found (string_at (n + k)) first ≡ true))

  -- A token for each level, which tells the level.
  abbrev pub TellLevels : ℕ → List (List ℕ) → Type 0
  TellLevels levels tokens =
      (length tokens ≡ levels)
      × ((t : List ℕ) (i : ℕ) → (check_security_level tokens (some t) ≡ some i) ↔ At i tokens t)

  add_tokens-cases :
      (all levels fuel n : ℕ) (tokens : List (List ℕ))
      → length tokens + levels ≡ all
      → Good tokens
      → ((made : List (List ℕ)) × (n' : ℕ) × ((add_tokens token_length milliseconds rand levels fuel
                n tokens
              ≡ some (made, n'))
            × ((length made ≡ all) × Good made)))
        ⊎ ((add_tokens token_length milliseconds rand levels fuel n tokens ≡ none) × Stuck all fuel)
  unfolding add_tokens
  add_tokens-cases all zero fuel n tokens count good = inl (tokens, n, (refl, (omega arith, good)))
  add_tokens-cases all (suc levels) fuel n tokens count good =
      let push_back : List ℕ → ℕ → Option (List (List ℕ) × ℕ) =
        λ token m. add_tokens token_length milliseconds rand levels fuel m (tokens ++ token ∷ []) in
      elim (new_token-cases fuel n tokens) [
        | inr (stuck, seen) ↦ inr (ap (if_drawn push_back) stuck, (tokens, n, (omega arith, seen)))
        | inl (t, n', (drawn, (full, fresh))) ↦
            (let longer = ap (λ m. m + levels) (length-append tokens (t ∷ [])) ∙ omega arith in
              let better = append-Good t tokens good full fresh in
              elim (add_tokens-cases all levels fuel n' (tokens ++ t ∷ []) longer better) [
                | inl (made, m, (rest, well)) ↦
                    inl (made, m, (ap (if_drawn push_back) drawn ∙ rest, well))
                | inr (rest, stuck) ↦ inr (ap (if_drawn push_back) drawn ∙ rest, stuck)
              ])
      ]

  Good-TellLevels :
      (levels : ℕ) (tokens : List (List ℕ))
      → length tokens ≡ levels
      → Good tokens
      → TellLevels levels tokens
  unfolding check_security_level
  Good-TellLevels levels tokens count good = (
    count,
    λ t i. (
      λ e.
          (let (j, (same, there)) = first_token-At t 0 tokens i (checked t tokens i e) in
            subst (λ x. At x tokens t) (sym (same ∙ omega arith)) there),
      λ there. if_false _ _ (good t i there).0 ∙ (good t i there).1,
    ),
  )

  -- With non-empty strings and a bound on the rounds for each token, one of two: a token is allocated for
  -- each level, and the level of a text is i exactly if it is the i-th token; or none is, and then there
  -- are fewer tokens than levels among which every string is that was drawn in as many rounds, one after
  -- the other, as the bound says.
  pub allocate_token-cases :
      (levels fuel n : ℕ)
      → ((tokens : List (List ℕ)) × (n' : ℕ) × ((allocate_token token_length milliseconds rand
                levels fuel n
              ≡ some (tokens, n'))
            × TellLevels levels tokens))
        ⊎ ((allocate_token token_length milliseconds rand levels fuel n ≡ none) × Stuck levels fuel)
  unfolding allocate_token
  allocate_token-cases levels fuel n =
      elim (add_tokens-cases levels levels fuel n [] (omega arith) (λ t i there. absurd there)) [
        | inl (tokens, n', (made, (count, good))) ↦
            inl (tokens, n', (made, Good-TellLevels levels tokens count good))
        | inr stuck ↦ inr stuck
      ]
