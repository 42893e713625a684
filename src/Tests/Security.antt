-- ===== src/Tests/Security.antt =====
-- Tokens and levels at concrete inputs.
use fdbus.Prelude.{ℕ, ◌%◌, ◌≡◌, ◌⊎◌, refl, arith, none, some, List, [], ◌∷◌}
use fdbus.NameServer.{text_eq}
use fdbus.Security.{
  ServerSecCfg, alphanum, same_token_found, random_string, random_characters, allocate_token,
  check_security_level, get_group_security_level,
}
use fdbus.Security.Tokens.{TellLevels, Stuck, allocate_token-cases}
use fdbus.Security.Levels.{Unlisted, Greatest, get_group_security_level-Greatest}

abbrev clock : ℕ → ℕ
clock n = n

abbrev parity : ℕ → ℕ → ℕ
parity seed i = seed % 2

allocate_token-cases_example :
    ((tokens : List (List ℕ)) × (n' : ℕ) × ((allocate_token 1 clock parity 2 2 0
          ≡ some (tokens, n'))
        × TellLevels 1 clock parity (omega arith) 2 tokens))
    ⊎ ((allocate_token 1 clock parity 2 2 0 ≡ none) × Stuck 1 clock parity (omega arith) 2 2)
allocate_token-cases_example = allocate_token-cases 1 clock parity (omega arith) 2 2 0

two_tokens_lem : allocate_token 1 clock parity 2 2 0 ≡ some ((48 ∷ []) ∷ (49 ∷ []) ∷ [], 2)
unfolding allocate_token fdbus.Security.add_tokens fdbus.Security.new_token
    fdbus.ServiceAddresses.same_text random_string random_characters
two_tokens_lem = refl

abbrev groups : ServerSecCfg
groups = record {
  default_level = none;
  cred_sec_level_tbl = (10, some 1) ∷ (20, some 3) ∷ (30, none) ∷ [];
}

get_group_security_level-Greatest_example :
    (Unlisted groups.cred_sec_level_tbl (20 ∷ 10 ∷ [])
      × (get_group_security_level (20 ∷ 10 ∷ []) groups ≡ none))
    ⊎ Greatest groups.cred_sec_level_tbl
        (20 ∷ 10 ∷ [])
        (get_group_security_level (20 ∷ 10 ∷ []) groups)
get_group_security_level-Greatest_example = get_group_security_level-Greatest (20 ∷ 10 ∷ []) groups
