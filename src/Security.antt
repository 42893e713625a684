-- ===== src/Security.antt =====
-- Tokens (security/CFdbToken.cpp) and the level of a user at a service
-- (security/CServerSecurityConfig.cpp), built with CFG_FDBUS_SECURITY. A token is the bytes before its
-- terminator; a level is an Option, where none is FDB_SECURITY_LEVEL_NONE (-1). The clock, srand and rand
-- are parameters, and so are the groups that the system gives a user.
pub mod Tokens
pub mod Levels
use fdbus.Prelude.{
  ℕ, zero, suc, ◌+◌, ◌%◌, ltb, Bool, true, false, if◌then◌else◌, Option, none, some, List, [], ◌∷◌,
  ◌++◌,
}
use fdbus.Prelude.Map.{Map, nat_eq, find, is_empty}
use fdbus.NameServer.{text_eq}

unfoldable pub first_token : List ℕ → ℕ → List (List ℕ) → Option ℕ
first_token token i [] = none
first_token token i (t ∷ tokens) =
    let rest = first_token token (suc i) tokens in if text_eq.beq t token then some i else rest

-- none is a null pointer.
unfoldable pub check_security_level : List (List ℕ) → Option (List ℕ) → Option ℕ
check_security_level tokens none = none
check_security_level tokens (some token) =
    if is_empty token then none else first_token token 0 tokens

-- The characters 0-9, A-Z and a-z.
abbrev pub alphanum : ℕ → ℕ
alphanum i = if ltb i 10 then 48 + i else if ltb i 36 then 55 + i else 61 + i

-- As many characters as the first argument says, from the i-th number of rand on.
unfoldable pub random_characters : ℕ → (ℕ → ℕ) → ℕ → List ℕ
random_characters zero rand i = []
random_characters (suc n) rand i = alphanum (rand i % 62) ∷ random_characters n rand (suc i)

abbrev pub same_token_found : List ℕ → List (List ℕ) → Bool
same_token_found token [] = false
same_token_found token (t ∷ tokens) =
    if text_eq.beq t token then true else same_token_found token tokens

abbrev pub if_drawn : {A B : Type 0} → (A → ℕ → Option B) → Option (A × ℕ) → Option B
if_drawn go none = none
if_drawn go (some (token, n)) = go token n

-- The n-th reading of the clock seeds the n-th string: `rand seed` are the numbers after srand(seed).
module _ (token_length : ℕ) (milliseconds : ℕ → ℕ) (rand : ℕ → ℕ → ℕ) where
  unfoldable pub random_string : ℕ → List ℕ
  random_string n = random_characters token_length (rand (milliseconds n % 4294967296)) 0

  unfoldable pub new_token : ℕ → ℕ → List (List ℕ) → Option (List ℕ × ℕ)
  new_token zero n tokens = none
  new_token (suc fuel) n tokens =
      let next = new_token fuel (suc n) tokens in
      if same_token_found (random_string n) tokens then next else some (random_string n, suc n)

  unfoldable pub add_tokens : ℕ → ℕ → ℕ → List (List ℕ) → Option (List (List ℕ) × ℕ)
  add_tokens zero fuel n tokens = some (tokens, n)
  add_tokens (suc levels) fuel n tokens =
      let push_back : List ℕ → ℕ → Option (List (List ℕ) × ℕ) =
        λ token n'. add_tokens levels fuel n' (tokens ++ token ∷ []) in
      if_drawn push_back (new_token fuel n tokens)

  unfoldable pub allocate_token : ℕ → ℕ → ℕ → Option (List (List ℕ) × ℕ)
  allocate_token levels fuel n = add_tokens levels fuel n []

abbrev pub above : Option ℕ → Option ℕ → Bool
above none b = false
above (some a) none = true
above (some a) (some b) = ltb b a

pub record ServerSecCfg : Type 0 where
  pub default_level : Option ℕ
  pub cred_sec_level_tbl : Map ℕ (Option ℕ)

pub record Permissions : Type 0 where
  pub gid : ServerSecCfg
  pub uid : ServerSecCfg

-- The levels of the groups that have one, from the first on: none if no group has one.
abbrev pub higher : Option (Option ℕ) → Option (Option ℕ) → Option (Option ℕ)
higher none max = max
higher (some level) none = some (if above level none then level else none)
higher (some level) (some max) = some (if above level max then level else max)

unfoldable pub max_level : Map ℕ (Option ℕ) → List ℕ → Option (Option ℕ) → Option (Option ℕ)
max_level tbl [] max = max
max_level tbl (g ∷ groups) max = max_level tbl groups (higher (find g tbl) max)

abbrev pub or_default : Option ℕ → Option (Option ℕ) → Option ℕ
or_default default none = default
or_default default (some level) = level

unfoldable pub get_group_security_level : List ℕ → ServerSecCfg → Option ℕ
get_group_security_level groups cfg =
    or_default cfg.default_level (max_level cfg.cred_sec_level_tbl groups none)

unfoldable pub get_user_security_level : ℕ → ServerSecCfg → Option ℕ
get_user_security_level uid cfg = or_default cfg.default_level (find uid cfg.cred_sec_level_tbl)

abbrev pub level_of : (ℕ → List ℕ) → ℕ → Option Permissions → Option ℕ
level_of own_groups uid none = none
level_of own_groups uid (some perm) =
    let level_gid = get_group_security_level (own_groups uid) perm.gid in
    let level_uid = get_user_security_level uid perm.uid in
    if above level_gid level_uid then level_gid else level_uid

unfoldable pub get_security_level : (ℕ → List ℕ) → Map (List ℕ) Permissions → List ℕ → ℕ → Option ℕ
get_security_level own_groups tbl svc_name uid = level_of own_groups uid (find svc_name tbl)
