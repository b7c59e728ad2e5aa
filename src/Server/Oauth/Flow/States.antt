-- ===== src/Server/Oauth/Flow/States.antt =====
-- The rows of `oauth_states` in apps/server/src/api/oauth.rs: each is used once.
use free_box.Prelude.{ℕ, ◌≤◌, ◌≡◌, refl, Bool, true, Option, none, some, List, [], ◌∷◌, arith}
use free_box.Outcome.{Result, ok, err}
use free_box.Server.Error.{AppError, unauthorized}
use free_box.Server.Handler.{Handler}
use free_box.Server.Handler.Keeps.{
  Keeps, Keeps-pure, Keeps-lift, Keeps-gets, Keeps-require, Keeps-if, Keeps-await, Keeps-modify,
  Keeps-bind,
}
use free_box.Server.Files.Keys.{Text, UuidText}
use free_box.Server.Auth.{Services, Config, User}
use free_box.Server.Oauth.{Link, OauthState, OauthStore, Reason, Profile, settle, transaction}
use free_box.Server.Oauth.Resolve.{
  Draws, reactivate, write_reactivation_audit_event, sign_in_linked, sign_in_unlinked, insert_link,
  insert_or_revive, choose_user, sign_in, fetch_linked_oauth_user, or_linked, find_or_create_user,
}
use free_box.Server.Oauth.Flow.{
  Oauth, attach, sign_in_as, redeem, callback, is_open, find_state, delete_states,
}

abbrev states_of : OauthStore → List OauthState
states_of s = s.states

ruleset keeping = (
  Keeps-pure, Keeps-lift, Keeps-gets, Keeps-require, Keeps-if, Keeps-await, Keeps-modify,
  Keeps-bind,
)

Keeps-reactivate :
    (io : ℕ → Bool) (max_days now user_id : ℕ) (provider id : Text) (reason : Reason) (t : Option ℕ)
    → Keeps states_of (reactivate io max_days now user_id provider id reason t)
unfolding write_reactivation_audit_event
Keeps-reactivate io max_days now user_id provider id reason none = λ s. refl
Keeps-reactivate io max_days now user_id provider id reason (some t) = search (keeping)

Keeps-sign_in_linked :
    (io : ℕ → Bool) (max_days now : ℕ) (provider : Text) (p : Profile) (u : User)
    → Keeps states_of (sign_in_linked io max_days now provider p u)
unfolding sign_in_linked
Keeps-sign_in_linked io max_days now provider p u = search (keeping, Keeps-reactivate)

Keeps-insert_or_revive : (u : User) (o : Option User) → Keeps states_of (insert_or_revive u o)
Keeps-insert_or_revive u none = search (keeping)
Keeps-insert_or_revive u (some old) = search (keeping)

Keeps-insert_link : (l : Link) → Keeps states_of (insert_link l)
unfolding insert_link
Keeps-insert_link l s = ground arith

Keeps-choose_user :
    (uuid : UuidText) (io : ℕ → Bool) (max_days : ℕ) (d : Draws) (provider : Text) (p : Profile)
    (o : Option User)
    → Keeps states_of (choose_user uuid io max_days d provider p o)
Keeps-choose_user uuid io max_days d provider p none = search (keeping, Keeps-insert_or_revive)
Keeps-choose_user uuid io max_days d provider p (some u) = search (keeping, Keeps-reactivate)

Keeps-sign_in_unlinked :
    (uuid : UuidText) (io : ℕ → Bool) (max_days : ℕ) (d : Draws) (provider : Text) (p : Profile)
    → Keeps states_of (sign_in_unlinked uuid io max_days d provider p)
unfolding sign_in_unlinked
Keeps-sign_in_unlinked uuid io max_days d provider p =
    search (keeping, Keeps-choose_user, Keeps-insert_link) depth 12

Keeps-settle :
    (r : Result AppError (Option (ℕ × Text)) × OauthStore) (s : OauthStore)
    → states_of r.1 ≡ states_of s
    → states_of (settle r s).1 ≡ states_of s
Keeps-settle (ok (some a), t) s h = h
Keeps-settle (ok none, t) s h = refl
Keeps-settle (err e, t) s h = refl

Keeps-transaction :
    (m : Handler OauthStore (Option (ℕ × Text)))
    → Keeps states_of m
    → Keeps states_of (transaction m)
Keeps-transaction m h s = Keeps-settle (m s) s (h s)

Keeps-sign_in :
    (uuid : UuidText) (io : ℕ → Bool) (max_days : ℕ) (d : Draws) (provider : Text) (p : Profile)
    (o : Option User)
    → Keeps states_of (sign_in uuid io max_days d provider p o)
Keeps-sign_in uuid io max_days d provider p none =
    Keeps-sign_in_unlinked uuid io max_days d provider p
Keeps-sign_in uuid io max_days d provider p (some u) =
    Keeps-sign_in_linked io max_days d.now provider p u

Keeps-or_linked :
    (uuid : UuidText) (answers : Bool) (provider id : Text) (o : Option (ℕ × Text))
    → Keeps states_of (or_linked uuid answers provider id o)
unfolding fetch_linked_oauth_user
Keeps-or_linked uuid answers provider id none = search (keeping) depth 12
Keeps-or_linked uuid answers provider id (some r) = λ s. refl

Keeps-find_or_create_user :
    (uuid : UuidText) (io : ℕ → Bool) (max_days : ℕ) (d : Draws) (provider : Text) (p : Profile)
    → Keeps states_of (find_or_create_user uuid io max_days d provider p)
unfolding find_or_create_user
Keeps-find_or_create_user uuid io max_days d provider p =
    search (keeping, Keeps-transaction, Keeps-sign_in, Keeps-or_linked) depth 12

module _ (oauth : Oauth) where
  Keeps-attach :
      (answers : Bool) (now user : ℕ) (provider : Text) (p : Profile) (o : Option Link)
      → Keeps states_of (attach oauth answers now user provider p o)
  Keeps-attach answers now user provider p none = search (keeping) depth 12
  Keeps-attach answers now user provider p (some l) = λ s. ground arith

  module _ (svc : Services) (cfg : Config) where
    Keeps-sign_in_as :
        (io : ℕ → Bool) (d : Draws) (token provider : Text) (p : Profile) (o : Option ℕ)
        → Keeps states_of (sign_in_as oauth svc cfg io d token provider p o)
    Keeps-sign_in_as io d token provider p none =
        search (keeping, Keeps-find_or_create_user) depth 12
    Keeps-sign_in_as io d token provider p (some user) = search (keeping, Keeps-attach) depth 12

    Keeps-redeem :
        (io : ℕ → Bool) (d : Draws) (token provider code : Text) (found : Option OauthState)
        → Keeps states_of (redeem oauth svc cfg io d token provider code found)
    Keeps-redeem io d token provider code found = search (keeping, Keeps-sign_in_as) depth 20

    callback-states :
        (io : ℕ → Bool) (d : Draws) (token path code state : Text) (s : OauthStore)
        → io 0 ≡ true
        → (callback oauth svc cfg io d token path code state s).1.states
          ≡ delete_states (is_open d.now state) s.states
    unfolding callback
    callback-states io d token path code state s h = rw h (
        Keeps-redeem io d token (oauth.to_lowercase path) code
          (find_state (is_open d.now state) s.states)
          (record s { states = delete_states (is_open d.now state) s.states }))

find_state-delete_states :
    (now later : ℕ) (state : Text) (rs : List OauthState)
    → now ≤ later
    → find_state (is_open later state) (delete_states (is_open now state) rs) ≡ none
find_state-delete_states now later state [] h = refl
find_state-delete_states now later state (r ∷ rs) h =
    ground (arith, find_state-delete_states now later state rs h)

delete_states-none :
    (p : OauthState → Bool) (rs : List OauthState)
    → find_state p rs ≡ none
    → delete_states p rs ≡ rs
delete_states-none p [] h = refl
delete_states-none p (r ∷ rs) h = ground (arith, delete_states-none p rs)

module _ (oauth : Oauth) (svc : Services) (cfg : Config) where
  no_state_refused :
      (d : Draws) (token path code state : Text) (s : OauthStore)
      → find_state (is_open d.now state) s.states ≡ none
      → callback oauth svc cfg (λ _. true) d token path code state s ≡ (err unauthorized, s)
  unfolding callback
  no_state_refused d token path code state s h =
      rw (h, delete_states-none (is_open d.now state) s.states h) refl

  -- A callback that gets as far as the table of states uses its state up, whatever comes of it and
  -- whichever later calls fail: a later callback with the same state, at any provider and with any code,
  -- is unauthorized and changes nothing.
  pub callback_once :
      (io : ℕ → Bool) (d d' : Draws) (token token' path path' code code' state : Text)
      (s : OauthStore)
      → io 0 ≡ true
      → d.now ≤ d'.now
      → callback oauth svc cfg
          (λ _. true)
          d'
          token'
          path'
          code'
          state
          (callback oauth svc cfg io d token path code state s).1
        ≡ (err unauthorized, (callback oauth svc cfg io d token path code state s).1)
  callback_once io d d' token token' path path' code code' state s h later =
      no_state_refused d' token' path' code' state _ (
        rw (callback-states oauth svc cfg io d token path code state s h)
          (find_state-delete_states d.now d'.now state s.states later))
