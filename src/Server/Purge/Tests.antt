-- ===== src/Server/Purge/Tests.antt =====
-- The purge of apps/server/src/main.rs at concrete inputs. The storage provider goes through the keys that
-- the state may have.
use free_box.Texts.Find.{starts_with-append}
use free_box.Texts.{starts_with}
use free_box.Prelude.{
  ◌≡◌, ◌∙◌, refl, ap, ℕ, Bool, true, false, ◌&&◌, some, List, [], ◌∷◌, All, bytes_eq,
  bytes_eq_sound, Bool-cases, Option-cases, inl, inr, false≢true, sym, ◌==◌, if◌then◌else◌, arith,
  if_either, replicate,
}
use free_box.Outcome.{ok}
use free_box.Server.Files.Keys.{Text, UuidText, chunk_storage_key}
use free_box.Server.Files.State.{
  Store, Upload, object_exists, empty, set_upload, set_upload-cases, put_object,
}
use free_box.Server.Files.Upload.{upload_complete, promoted}
use free_box.Server.Files.Upload.Counting.{count_below}
use free_box.Server.Files.Upload.Chunk.{IsCounted}
use free_box.Server.Purge.{Services, purge_orphaned_uploads, purge_blobs}
use free_box.Server.Purge.Keeps.{IsUnder, ListsUnder, IsSpared}
use free_box.Server.Purge.Clears.{Works, IsWithin}
use free_box.Server.Purge.Completed.{
  IsReady, IsHollow, best_effort, completed_upload_is_purged, complete_amid_purge,
}
use free_box.Server.Purge.Counted.{IsApart, purge_orphaned_uploads-IsCounted}

starts_with-IsUnder : (p k : Text) → starts_with p k ≡ true → IsUnder p k
starts_with-IsUnder [] k h = (k, refl)
starts_with-IsUnder (c ∷ p) [] h = cc h
starts_with-IsUnder (c ∷ p) (d ∷ k) h =
    let (rest, e) = starts_with-IsUnder p k (ground arith) in
    let same : d ≡ c = ground arith in (rest, cc (same, e))

abbrev is_listed : Text → Store → Text → Bool
is_listed p s k = starts_with p k && object_exists k s

abbrev present : Text → Store → List Text → List Text
present p s [] = []
present p s (k ∷ ks) = if is_listed p s k then k ∷ present p s ks else present p s ks

present-IsUnder : (p : Text) (s : Store) (ks : List Text) → All (IsUnder p) (present p s ks)
present-IsUnder p s [] = tt
present-IsUnder p s (k ∷ ks) =
    if_either (All (IsUnder p)) (is_listed p s k) _ _
      (λ e. (starts_with-IsUnder p k (ground arith), present-IsUnder p s ks))
      (λ _. present-IsUnder p s ks)

unlisted :
    (p key : Text) (s : Store) (ks : List Text)
    → is_listed p s key ≡ true
    → All (λ k. bytes_eq k key ≡ false) (present p s ks)
    → All (λ k. bytes_eq k key ≡ false) ks
unlisted p key s [] here h = tt
unlisted p key s (k ∷ ks) here h = elim (Bool-cases (is_listed p s k)) [
  | inl e ↦ let now = rw e at h in (now.0, unlisted p key s ks here now.1)
  | inr e ↦ elim (Bool-cases (bytes_eq k key)) [
    | inl same ↦
        let as_key : is_listed p s k ≡ true =
          ap (is_listed p s) (bytes_eq_sound k key same) ∙ here in
        absurd (false≢true (sym e ∙ as_key))
    | inr differ ↦ (differ, unlisted p key s ks here (rw e at h))
  ]
]

module _ (known : List Text) where
  abbrev services : Services
  services = record {
    fetch_all = true;
    list = λ p s. some (present p s known);
    deletes = λ key. true;
    executes = λ id. true;
  }

  services_list : ListsUnder services
  services_list p s = present-IsUnder p s known

  services_work : Works services known
  services_work = record {
    deleted = λ key. refl;
    listed = λ p key s within (rest, e) out. elim (Option-cases (s.objects key)) [
      | inl gone ↦ gone
      | inr (body, there) ↦
          let under : starts_with p key ≡ true = ap (starts_with p) e ∙ starts_with-append p rest in
          let here : is_listed p s key ≡ true = rw (under, there) refl in
          within key (unlisted p key s known here out)
    ];
  }

head_same : (a b : ℕ) (xs ys : Text) → a ∷ xs ≡ b ∷ ys → a ≡ b
head_same a b xs ys h = cc

abbrev uuid : UuidText
uuid = record {
  text = λ id. id ∷ replicate 35 0;
  length-text = λ id. refl;
  text_injective = λ a b. head_same a b (replicate 35 0) (replicate 35 0);
}

abbrev row : Upload
row = record {
  user_id = 5;
  total_chunks = 1;
  chunks_received = 1;
  size_bytes = 2;
  encrypted_key_envelope = 1 ∷ [];
  content_hash = 2 ∷ [];
  encrypted_name = 3 ∷ [];
}

abbrev chunk_key : Text
chunk_key = chunk_storage_key uuid 7 0

abbrev keys : List Text
keys = chunk_key ∷ []

abbrev full : Store
full = set_upload 7 (some row) (put_object chunk_key (9 ∷ 8 ∷ []) empty)

full-IsWithin : IsWithin keys full
full-IsWithin key h = rw (h.0) refl

full-IsReady : IsReady 5 7 row full
full-IsReady = record { found = refl; full = omega arith; unused = refl }

abbrev day : ℕ → ℕ
day id = if id == 7 then 1_000 else 90_000

completed_upload_is_purged_example :
    let after = λ (deleted : Bool). upload_complete (best_effort deleted) 2_000 5 7 full in
    let purge = purge_orphaned_uploads (services keys) uuid 90_000 day (7 ∷ []) in
    ((after true).0 ≡ ok 7)
    × IsSpared uuid 7 (after true).1 (purge (after true).1)
    × ((after false).0 ≡ ok 7)
    × IsHollow uuid (λ _. true) 5 (promoted 2_000 5 7 row) 0 (purge (after false).1)
completed_upload_is_purged_example =
    completed_upload_is_purged uuid (services keys) (services_list keys) keys (services_work keys)
      2_000 90_000 5 7 0 day (7 ∷ []) row full full-IsWithin (omega arith) full-IsReady refl refl
      refl (omega arith)

complete_amid_purge_example :
    let after =
      upload_complete (best_effort true) 90_000 5 7 (purge_blobs (services keys) uuid 7 full) in
    (after.0 ≡ ok 7) × IsHollow uuid (λ _. true) 5 (promoted 90_000 5 7 row) 0 after.1
complete_amid_purge_example =
    complete_amid_purge uuid (services keys) (services_list keys) keys (services_work keys) true
      90_000 5 7 0 row full full-IsWithin (omega arith) full-IsReady

some_injective : (u v : Upload) → some u ≡ some v → u ≡ v
some_injective u v h = cc h

abbrev begun : Store
begun = set_upload 7 (some (record row { chunks_received = 0 })) empty

begun-IsCounted : IsCounted uuid begun
unfolding count_below
begun-IsCounted = record {
  counted = λ id u h. elim (set_upload-cases 7 id _ empty u h) [
    | inl (same, e) ↦ rw (← some_injective _ u e) refl
    | inr (ne, e) ↦ cc e
  ];
  small = λ id u h. elim (set_upload-cases 7 id _ empty u h) [
    | inl (same, e) ↦ rw (← some_injective _ u e) (omega arith)
    | inr (ne, e) ↦ cc e
  ];
  stored = tt;
}

purge_orphaned_uploads-IsCounted_example :
    let t = purge_orphaned_uploads (services []) uuid 90_000 day (7 ∷ []) begun in
    IsCounted uuid t × IsApart t
purge_orphaned_uploads-IsCounted_example =
    purge_orphaned_uploads-IsCounted uuid (services []) (services_list []) [] (services_work [])
      90_000 day (7 ∷ []) begun (λ key h. refl) (λ id. refl) (λ id h. ground arith) begun-IsCounted
      (λ id h. cc h)
