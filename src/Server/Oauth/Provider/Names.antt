-- ===== src/Server/Oauth/Provider/Names.antt =====
-- apps/server/src/api/oauth.rs: the username and the email of an account that is made from a profile.
use free_box.Texts.Trim.{trim}
use free_box.Prelude.{
  ℕ, Bool, Option, none, some, [], ◌∷◌, ◌++◌, length, take, ltb, ◌==◌, if◌then◌else◌,
}
use free_box.Server.Files.Keys.{Text, UuidText, codes}
use free_box.Server.Auth.{is_username_char}
use free_box.Server.Oauth.{Profile}

abbrev pub filter_text : (ℕ → Bool) → Text → Text
filter_text p [] = []
filter_text p (c ∷ cs) = let rest = filter_text p cs in if p c then c ∷ rest else rest

abbrev pub name_or_user : Option Text → Text
name_or_user none = codes "user"
name_or_user (some name) = name

abbrev pub long_enough : Text → Text
long_enough name = if ltb (length name) 3 then codes "user" else name

module _ (uuid : UuidText) where
  -- `suffix_id` is what `Uuid::new_v4` returns.
  unfoldable pub unique_oauth_username : ℕ → Profile → Text
  unique_oauth_username suffix_id p =
      take 23 (long_enough (filter_text is_username_char (name_or_user p.username)))
      ++ b'-' ∷ take 8 (uuid.text suffix_id)

abbrev pub usable_email : Option Text → Option Text
usable_email none = none
usable_email (some email) = let short = trim email in if length short == 0 then none else some short

abbrev pub or_synthetic : Text → Option Text → Text
or_synthetic synthetic none = synthetic
or_synthetic synthetic (some email) = email

module _ (uuid : UuidText) where
  unfoldable pub oauth_email : ℕ → Text → Profile → Text
  oauth_email fresh_id provider p =
      or_synthetic
        (codes "oauth+" ++ provider ++ b'+' ∷ uuid.text fresh_id ++ codes "@freebox.local")
        (usable_email p.email)
