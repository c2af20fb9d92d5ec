-- ===== src/Players.antt =====
-- Players of app/objects/collections.py: the list of the sessions that are online, and its three
-- indices. A session is a reference, as Python compares players by identity; `sessions` gives the
-- attributes that it was made with, and `lower` stands for `str.lower`.
pub mod Index
pub mod Kept
pub mod Refines
use Prim.Native.Nat.{bit_and}
use bancho_prism_1_0_0_prod.Base.{
  ℕ, List, [], ◌∷◌, ◌++◌, map, Bool, true, false, not, Option, none, some, ◌==◌, if◌then◌else◌,
  Result, ok, err, key_error,
}
use bancho_prism_1_0_0_prod.Utf8.{Text}
use bancho_prism_1_0_0_prod.Match.{is_none}
use bancho_prism_1_0_0_prod.Match.Complete.{contains}
use bancho_prism_1_0_0_prod.Match.Membership.{
  remove, has_priv, same_text, unrestricted_priv, staff_priv,
}

pub record Session : Type 0 where
  pub token : Text
  pub id : ℕ
  pub name : Text
  pub priv : ℕ

-- A dict from a key to a session.
abbrev pub Index {ℓ} : Type ℓ → Type ℓ
Index K = K → Option ℕ

-- index[key] = p
abbrev pub put {ℓ} : {K : Type ℓ} → (K → K → Bool) → K → ℕ → Index K → Index K
put same key p index k = if same key k then some p else index k

-- The dict after `del index[key]`, which has raised where the key is missing.
abbrev pub without {ℓ} : {K : Type ℓ} → (K → K → Bool) → K → Index K → Index K
without same key index k = if same key k then none else index k

pub record Players : Type 0 where
  pub online : List ℕ
  pub by_token : Index Text
  pub by_id : Index ℕ
  pub by_name : Index Text

abbrev pub no_players : Players
no_players = record { online = []; by_token = λ k. none; by_id = λ k. none; by_name = λ k. none }

-- name.lower().replace(" ", "_")
abbrev pub make_safe_name : (lower : Text → Text) → Text → Text
make_safe_name lower name = map (λ c. if c == 32 then 95 else c) (lower name)

-- The sessions for which a test holds.
abbrev pub those : (ℕ → Bool) → List ℕ → List ℕ
those test [] = []
those test (p ∷ ids) = let rest = those test ids in if test p then p ∷ rest else rest

module _ (sessions : ℕ → Session) (lower : Text → Text) where
  abbrev pub token_of : ℕ → Text
  token_of p = (sessions p).token

  abbrev pub id_of : ℕ → ℕ
  id_of p = (sessions p).id

  abbrev pub safe_name_of : ℕ → Text
  safe_name_of p = make_safe_name lower (sessions p).name

  -- `get` looks at the first of its arguments that is given.
  unfoldable pub get :
      (token : Option Text) (id : Option ℕ) (name : Option Text) → Players → Option ℕ
  get (some token) id name s = s.by_token token
  get none (some id) name s = s.by_id id
  get none none (some name) s = s.by_name (make_safe_name lower name)
  get none none none s = none

  -- `name in players`
  unfoldable pub contains_name : Text → Players → Bool
  contains_name name s = not (is_none (s.by_name (make_safe_name lower name)))

  unfoldable pub append : ℕ → Players → Players
  append p s = if contains p s.online then s else record {
    online = s.online ++ p ∷ [];
    by_token = put same_text (token_of p) p s.by_token;
    by_id = put ◌==◌ (id_of p) p s.by_id;
    by_name = put same_text (safe_name_of p) p s.by_name;
  }

  -- Each `del` raises where its key is missing, and leaves what was done before.
  abbrev del_name : ℕ → Players → Result (Unit {0}) × Players
  del_name p s =
      if is_none (s.by_name (safe_name_of p))
      then (err key_error, s)
      else (ok tt, record s { by_name = without same_text (safe_name_of p) s.by_name })

  abbrev del_id : ℕ → Players → Result (Unit {0}) × Players
  del_id p s =
      if is_none (s.by_id (id_of p))
      then (err key_error, s)
      else del_name p (record s { by_id = without ◌==◌ (id_of p) s.by_id })

  abbrev del_token : ℕ → Players → Result (Unit {0}) × Players
  del_token p s =
      if is_none (s.by_token (token_of p))
      then (err key_error, s)
      else del_id p (record s { by_token = without same_text (token_of p) s.by_token })

  unfoldable pub remove_player : ℕ → Players → Result (Unit {0}) × Players
  remove_player p s =
      if not (contains p s.online)
      then (ok tt, s)
      else del_token p (record s { online = remove p s.online })

  unfoldable pub staff : Players → List ℕ
  staff s = those (λ p. has_priv (sessions p).priv staff_priv) s.online

  unfoldable pub unrestricted : Players → List ℕ
  unrestricted s = those (λ p. has_priv (sessions p).priv unrestricted_priv) s.online

  unfoldable pub restricted : Players → List ℕ
  restricted s = those (λ p. not (has_priv (sessions p).priv unrestricted_priv)) s.online
