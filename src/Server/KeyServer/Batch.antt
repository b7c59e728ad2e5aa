-- ===== src/Server/KeyServer/Batch.antt =====
-- What apps/server/src/api/keys.rs accepts, and what becomes of the bundles.
use free_box.Prelude.{
  ℕ, suc, ◌≤◌, ◌<◌, ◌≡◌, ◌≢◌, ◌↔◌, refl, true, some, List, [], ◌∷◌, ◌++◌, length, ltb, ◌==◌,
  if◌then◌else◌, arith, Bool-cases, inl, inr, ◌⊎◌, sym, ◌∙◌, subst,
}
use free_box.Outcome.{Result, ok, err, reject_if-ok_iff}
use free_box.Server.Error.{bad_request}
use free_box.Crypto.Curves.{Ed25519}
use free_box.Crypto.Keys.{
  KeyError, OneTimePrekey, PrekeyBundle, validate_one_time, validate_public, validate_each,
}
use free_box.Crypto.Keys.Validation.{Absent, Usable, validate_each_iff, validate_public_iff}
use free_box.Server.KeyServer.{
  Bundles, get_bundle, replenish_one_time, validate_one_time_prekey_batch, validate_batch_each,
  with_keys, max_replenish_one_time_prekeys, as_bad_request,
}

-- The batch of the server is checked as the bundle is; every refusal is a bad request.
validate_batch_each_lem :
    (seen : List ℕ) (ks : List OneTimePrekey)
    → validate_batch_each seen ks ≡ as_bad_request (validate_each seen ks)
unfolding validate_batch_each validate_each validate_one_time
validate_batch_each_lem seen [] = refl
validate_batch_each_lem seen (k ∷ ks) = ground (arith, validate_batch_each_lem (k.id ∷ seen) ks)

as_bad_request-ok : (r : Result KeyError (Unit {0})) → (as_bad_request r ≡ ok tt) ↔ (r ≡ ok tt)
as_bad_request-ok (ok u) = (λ h. refl, λ h. refl)
as_bad_request-ok (err e) = (λ h. cc, λ h. cc)

-- The usable batches: from 1 to 1,000 keys, nonzero, with ids that differ from each other.
abbrev pub IsBatch : List OneTimePrekey → Type 0
IsBatch keys = (0 < length keys) × (length keys ≤ max_replenish_one_time_prekeys) × Usable [] keys

validate_one_time_prekey_batch_iff :
    (keys : List OneTimePrekey) → (validate_one_time_prekey_batch keys ≡ ok tt) ↔ IsBatch keys
unfolding validate_one_time_prekey_batch
validate_one_time_prekey_batch_iff [] = (λ h. cc, λ h. absurd (omega (arith, h.0)))
validate_one_time_prekey_batch_iff (k ∷ ks) =
    let each = validate_each_iff [] (k ∷ ks) in
    let same = validate_batch_each_lem [] (k ∷ ks) in
    let good = as_bad_request-ok (validate_each [] (k ∷ ks)) in
    let small =
      reject_if-ok_iff (ltb max_replenish_one_time_prekeys (suc (length ks))) bad_request
        (validate_batch_each [] (k ∷ ks)) in
    (
      λ h.
          let (fits, checked) = small.0 h in
          (omega arith, ground arith, each.0 (good.0 (sym same ∙ checked))),
      λ h. small.1 (ground (arith, h.1), same ∙ good.1 (each.1 h.2)),
    )

as_bad_request-cases :
    (r : Result KeyError (Unit {0}))
    → (as_bad_request r ≡ ok tt) ⊎ (as_bad_request r ≡ err bad_request)
as_bad_request-cases (ok u) = inl refl
as_bad_request-cases (err e) = inr refl

batch_cases :
    (keys : List OneTimePrekey)
    → (validate_one_time_prekey_batch keys ≡ ok tt)
      ⊎ (validate_one_time_prekey_batch keys ≡ err bad_request)
unfolding validate_one_time_prekey_batch
batch_cases [] = inr refl
batch_cases (k ∷ ks) =
    let same = validate_batch_each_lem [] (k ∷ ks) in
    elim (Bool-cases (ltb max_replenish_one_time_prekeys (suc (length ks)))) [
      | inl over ↦ inr (rw over refl)
      | inr fits ↦ elim (as_bad_request-cases (validate_each [] (k ∷ ks))) [
        | inl p ↦ inl (rw fits (same ∙ p))
        | inr p ↦ inr (rw fits (same ∙ p))
      ]
    ]

-- The state after a batch was taken.
abbrev pub replenished : ℕ → List OneTimePrekey → Bundles → Bundles
replenished user keys s j = if user == j then with_keys keys (s j) else s j

-- A batch is taken exactly when it has from 1 to 1,000 keys, which are nonzero with ids that differ from
-- each other: then it is appended to the user's bundle, if there is one, and no other bundle changes.
-- Any other batch is a bad request and changes nothing.
pub replenish_one_time_lem :
    (user : ℕ) (keys : List OneTimePrekey) (s : Bundles)
    → (IsBatch keys
        × (replenish_one_time (λ _. true) user keys s ≡ (ok tt, replenished user keys s)))
      ⊎ ((¬ IsBatch keys) × (replenish_one_time (λ _. true) user keys s ≡ (err bad_request, s)))
unfolding replenish_one_time
replenish_one_time_lem user keys s = elim (batch_cases keys) [
  | inl good ↦ inl ((validate_one_time_prekey_batch_iff keys).0 good, rw good refl)
  | inr bad ↦ inr (λ h. cc (bad, (validate_one_time_prekey_batch_iff keys).1 h), rw bad refl)
]

taken :
    (user : ℕ) (keys : List OneTimePrekey) (s : Bundles)
    → IsBatch keys
    → replenish_one_time (λ _. true) user keys s ≡ (ok tt, replenished user keys s)
taken user keys s h = elim (replenish_one_time_lem user keys s) [
  | inl (_, e) ↦ e
  | inr (no_batch, _) ↦ absurd (no_batch h)
]

Usable-append :
    (seen : List ℕ) (ks : List OneTimePrekey) (k : OneTimePrekey)
    → Usable seen (ks ++ k ∷ [])
    → Absent k.id seen
Usable-append seen [] k h = h.1
Usable-append seen (j ∷ js) k h = (Usable-append (j.id ∷ seen) js k h.2).1

-- Take a valid bundle with a one-time prekey. To upload that prekey once more is accepted, and the
-- bundle that the server hands out from then on is one that `validate_public` refuses.
pub replenish_spoils_bundle :
    (ed : Ed25519) (user : ℕ) (s : Bundles) (b : PrekeyBundle) (k : OneTimePrekey)
    (ks : List OneTimePrekey)
    → s user ≡ some b
    → b.one_time_prekeys ≡ k ∷ ks
    → validate_public ed b ≡ ok tt
    → (got : PrekeyBundle) × ((replenish_one_time (λ _. true) user (k ∷ []) s).0 ≡ ok tt)
      × (get_bundle (λ _. true) user (replenish_one_time (λ _. true) user (k ∷ []) s).1
          ≡ (ok got, (replenish_one_time (λ _. true) user (k ∷ []) s).1))
      × (validate_public ed got ≢ ok tt)
unfolding get_bundle
replenish_spoils_bundle ed user s b k ks here keys valid =
    let usable : Usable [] (k ∷ ks) =
      subst (λ xs. Usable [] xs) keys ((validate_public_iff ed b).0 valid).5 in
    let batch : IsBatch (k ∷ []) = (omega arith, omega arith, (usable.0, tt, tt)) in
    let got = record b { one_time_prekeys = b.one_time_prekeys ++ k ∷ [] } in
    (
      got,
      rw (taken user (k ∷ []) s batch) refl,
      rw (taken user (k ∷ []) s batch) (ground (arith, here)),
      λ h.
          let spoiled =
            subst (λ xs. Usable [] (xs ++ k ∷ [])) keys ((validate_public_iff ed got).0 h).5 in
          (Usable-append (k.id ∷ []) ks k spoiled.2).0 refl,
    )
