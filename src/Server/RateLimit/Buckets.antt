-- ===== src/Server/RateLimit/Buckets.antt =====
-- The buckets of apps/server/src/rate_limit.rs key by key: pruning and inserting, and the times in the window.
use free_box.Prelude.{
  ℕ, ◌+◌, ◌-◌, ◌≤◌, ◌≡◌, refl, sym, ◌∙◌, inl, inr, true, false, not, ◌&&◌, List, [], ◌∷◌, ◌++◌,
  length, bytes_eq, bytes_eq_sound, bytes_eq-false_iff, leb, if◌then◌else◌, arith, Bool-cases,
  if_either, subst,
}
use free_box.Server.Files.Keys.{Text}
use free_box.Server.RateLimit.{
  Bucket, drop_expired, is_empty, prune_expired, contains_key, stamps_of, insert,
}

-- The times that are still in the window at time `t`.
abbrev pub count_live : ℕ → ℕ → List ℕ → ℕ
count_live window t [] = 0
count_live window t (s ∷ ss) = (if leb window (t - s) then 0 else 1) + count_live window t ss

-- The requests of a key that the log has in the window at time `t`.
abbrev pub recent : ℕ → ℕ → Text → List (Text × ℕ) → ℕ
recent window t key [] = 0
recent window t key ((k, s) ∷ log) =
    (if bytes_eq k key && not (leb window (t - s)) then 1 else 0) + recent window t key log

pub count_live-drop_expired :
    (window now t : ℕ) (ss : List ℕ)
    → now ≤ t
    → count_live window t (drop_expired window now ss) ≡ count_live window t ss
count_live-drop_expired window now t [] h = refl
count_live-drop_expired window now t (s ∷ ss) h =
    ground (arith, count_live-drop_expired window now t ss)

pub count_live-le : (window t : ℕ) (ss : List ℕ) → count_live window t ss ≤ length ss
count_live-le window t [] = omega arith
count_live-le window t (s ∷ ss) = ground (arith, count_live-le window t ss)

pub count_live-append :
    (window t now : ℕ) (ss : List ℕ)
    → count_live window t (ss ++ now ∷ [])
      ≡ count_live window t ss + (if leb window (t - now) then 0 else 1)
count_live-append window t now [] = omega arith
count_live-append window t now (s ∷ ss) = ground (arith, count_live-append window t now ss)

pub recent-append :
    (window t : ℕ) (key k : Text) (now : ℕ) (log : List (Text × ℕ))
    → recent window t key (log ++ (k, now) ∷ [])
      ≡ recent window t key log + (if bytes_eq k key && not (leb window (t - now)) then 1 else 0)
recent-append window t key k now [] = omega arith
recent-append window t key k now ((j, s) ∷ log) =
    ground (arith, recent-append window t key k now log)

pub bytes_eq_comm_false : (x y : Text) → bytes_eq x y ≡ false → bytes_eq y x ≡ false
bytes_eq_comm_false x y h = (bytes_eq-false_iff y x).1 (λ e. (bytes_eq-false_iff x y).0 h (sym e))

pub count_live-empty :
    (window t : ℕ) (ss : List ℕ) → is_empty ss ≡ true → count_live window t ss ≡ 0
count_live-empty window t [] h = refl
count_live-empty window t (s ∷ ss) h = cc

-- No key has two buckets.
abbrev pub Distinct : List Bucket → Type 0
Distinct [] = Unit
Distinct (b ∷ bs) = (contains_key b.key bs ≡ false) × Distinct bs

pub contains_key-prune_expired :
    (window now : ℕ) (key : Text) (bs : List Bucket)
    → contains_key key bs ≡ false
    → contains_key key (prune_expired window now bs) ≡ false
unfolding contains_key prune_expired
contains_key-prune_expired window now key [] h = refl
contains_key-prune_expired window now key (b ∷ bs) h =
    ground (arith, contains_key-prune_expired window now key bs)

pub Distinct-prune_expired :
    (window now : ℕ) (bs : List Bucket) → Distinct bs → Distinct (prune_expired window now bs)
unfolding prune_expired
Distinct-prune_expired window now [] h = tt
Distinct-prune_expired window now (b ∷ bs) h =
    let rest = Distinct-prune_expired window now bs h.1 in
    if_either Distinct (is_empty (drop_expired window now b.stamps)) _ _ (λ e. rest)
      (λ e. (contains_key-prune_expired window now b.key bs h.0, rest))

pub contains_key-insert :
    (key k : Text) (ts : List ℕ) (bs : List Bucket)
    → bytes_eq k key ≡ false
    → contains_key key bs ≡ false
    → contains_key key (insert k ts bs) ≡ false
unfolding contains_key insert
contains_key-insert key k ts [] ne h = rw ne refl
contains_key-insert key k ts (b ∷ bs) ne h = ground (arith, contains_key-insert key k ts bs)

pub Distinct-insert :
    (k : Text) (ts : List ℕ) (bs : List Bucket) → Distinct bs → Distinct (insert k ts bs)
unfolding insert contains_key
Distinct-insert k ts [] h = (refl, tt)
Distinct-insert k ts (b ∷ bs) h =
    let rest = Distinct-insert k ts bs h.1 in
    if_either Distinct (bytes_eq b.key k) _ _ (λ e. h)
      (λ e. (contains_key-insert b.key k ts bs (bytes_eq_comm_false b.key k e) h.0, rest))

pub stamps_of-absent :
    (key : Text) (bs : List Bucket) → contains_key key bs ≡ false → stamps_of key bs ≡ []
unfolding contains_key stamps_of
stamps_of-absent key [] h = refl
stamps_of-absent key (b ∷ bs) h = ground (arith, stamps_of-absent key bs)

pub stamps_of-insert :
    (key k : Text) (ts : List ℕ) (bs : List Bucket)
    → stamps_of key (insert k ts bs) ≡ (if bytes_eq k key then ts else stamps_of key bs)
unfolding stamps_of insert
stamps_of-insert key k ts [] = refl
stamps_of-insert key k ts (b ∷ bs) = elim (Bool-cases (bytes_eq b.key k)) [
  | inl e ↦ rw (e, bytes_eq_sound b.key k e) (ground arith)
  | inr e ↦ elim (Bool-cases (bytes_eq b.key key)) [
    | inl g ↦
        let other =
          subst (λ x. bytes_eq k x ≡ false) (bytes_eq_sound b.key key g)
            (bytes_eq_comm_false b.key k e) in
        rw (e, g, other) refl
    | inr g ↦ rw (e, g) (stamps_of-insert key k ts bs)
  ]
]

pub count_live-prune_expired :
    (window now t : ℕ) (key : Text) (bs : List Bucket)
    → now ≤ t
    → Distinct bs
    → count_live window t (stamps_of key (prune_expired window now bs))
      ≡ count_live window t (stamps_of key bs)
unfolding stamps_of prune_expired
count_live-prune_expired window now t key [] h d = refl
count_live-prune_expired window now t key (b ∷ bs) h d =
    let kept = drop_expired window now b.stamps in
    let rest = count_live-prune_expired window now t key bs h d.1 in
    elim (Bool-cases (bytes_eq b.key key)) [
      | inl g ↦
          let absent = subst (λ x. contains_key x bs ≡ false) (bytes_eq_sound b.key key g) d.0 in
          let gone =
            stamps_of-absent key (prune_expired window now bs)
              (contains_key-prune_expired window now key bs absent) in
          let same = count_live-drop_expired window now t b.stamps h in
          elim (Bool-cases (is_empty kept)) [
            | inl e ↦ rw (e, g, gone) (sym (count_live-empty window t kept e) ∙ same)
            | inr e ↦ rw (e, g) same
          ]
      | inr g ↦ elim (Bool-cases (is_empty kept)) [
        | inl e ↦ rw (e, g) rest
        | inr e ↦ rw (e, g) rest
      ]
    ]
