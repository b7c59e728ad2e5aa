-- ===== src/Server/Config/Lists.antt =====
-- `env_parse_uuid_list` of apps/server/src/config.rs reads the list that it is given.
use free_box.Prelude.{ℕ, ◌≡◌, refl, true, false, Option, some, List, [], ◌∷◌, ◌++◌, All, arith}
use free_box.Outcome.{ok}
use free_box.Server.Files.Keys.{Text}
use free_box.Texts.Trim.{trim}
use free_box.Texts.{is_empty}
use free_box.Texts.Find.{lacks}
use free_box.Server.Config.{Env, env_parse_uuid_list, parse_all, split, trim_all}

-- A text that stands for an id: not empty, without a comma and white space at its ends.
pub record IsText (parse_str : Text → Option ℕ) (id : ℕ) (text : Text) : Type 0 where
  pub parsed : parse_str text ≡ some id
  pub filled : is_empty text ≡ false
  pub whole : lacks b',' text ≡ true
  pub bare : trim text ≡ text

-- Texts with commas between them.
abbrev pub join : (ℕ → Text) → List ℕ → Text
join text [] = []
join text (id ∷ []) = text id
join text (id ∷ next ∷ ids) = text id ++ b',' ∷ join text (next ∷ ids)

split-lacks : (xs : Text) → lacks b',' xs ≡ true → split b',' xs ≡ xs ∷ []
unfolding split
split-lacks [] h = refl
split-lacks (x ∷ xs) h = let rest = split-lacks xs (ground arith) in rw rest (ground arith)

split-append :
    (xs rest : Text) → lacks b',' xs ≡ true → split b',' (xs ++ b',' ∷ rest) ≡ xs ∷ split b',' rest
unfolding split
split-append [] rest h = refl
split-append (x ∷ xs) rest h =
    let later = split-append xs rest (ground arith) in rw later (ground arith)

module _ (parse_str : Text → Option ℕ) (text : ℕ → Text) where
  -- an unset list is one empty text
  parse_all-empty : parse_all parse_str (trim_all (split b',' [])) ≡ ok []
  unfolding parse_all split trim
  parse_all-empty = refl

  parse_all-nil : parse_all parse_str [] ≡ ok []
  unfolding parse_all
  parse_all-nil = refl

  trim_all-one :
      (id : ℕ) (parts : List Text)
      → IsText parse_str id (text id)
      → trim_all (text id ∷ parts) ≡ text id ∷ trim_all parts
  trim_all-one id parts h = rw (h.bare, h.filled) refl

  parse_all-one :
      (id : ℕ) (values : List Text) (ids : List ℕ)
      → IsText parse_str id (text id)
      → parse_all parse_str values ≡ ok ids
      → parse_all parse_str (text id ∷ values) ≡ ok (id ∷ ids)
  unfolding parse_all
  parse_all-one id values ids h later = rw (h.parsed, later) refl

  join-parsed :
      (ids : List ℕ)
      → All (λ id. IsText parse_str id (text id)) ids
      → parse_all parse_str (trim_all (split b',' (join text ids))) ≡ ok ids
  join-parsed [] h = parse_all-empty
  join-parsed (id ∷ []) h =
      rw (split-lacks (text id) h.0.whole, trim_all-one id [] h.0)
        (parse_all-one id [] [] h.0 parse_all-nil)
  join-parsed (id ∷ next ∷ ids) h =
      rw
        (
          split-append (text id) (join text (next ∷ ids)) h.0.whole,
          trim_all-one id (split b',' (join text (next ∷ ids))) h.0,
        )
        (parse_all-one id _ (next ∷ ids) h.0 (join-parsed (next ∷ ids) h.1))

  -- Take ids whose texts are read back, with no comma in them and no white space at their ends. A variable
  -- that holds these texts with commas between them is read as these ids, in their order.
  pub env_parse_uuid_list-join :
      (env : Env) (key : Text) (ids : List ℕ)
      → All (λ id. IsText parse_str id (text id)) ids
      → env key ≡ some (join text ids)
      → env_parse_uuid_list parse_str env key ≡ ok ids
  unfolding env_parse_uuid_list
  env_parse_uuid_list-join env key ids h set = rw set (join-parsed ids h)
