-- ===== src/Storage/S3/Bucket/Rounds.antt =====
-- The loop of `parse_list_buckets_xml` in plugins/storage-s3/src/bucket.rs ends: a round that goes on leaves
-- less text.
use free_box.Prelude.{
  ℕ, zero, suc, ◌+◌, ◌≤◌, ◌<◌, ◌≡◌, refl, sym, ap, ◌∙◌, none, some, [], ◌∷◌, length, take, drop,
  length-drop, arith, inl, inr, Option-cases,
}
use free_box.Server.Files.Keys.{Text}
use free_box.Texts.{find}
use free_box.Storage.S3.Bucket.Xml.{parse_rounds-found, parse_rounds-end}
use free_box.Storage.S3.Bucket.{
  bucket_open, bucket_close, push_bucket, parse_rounds, parse_list_buckets_xml,
}

-- A text in which the opening tag is found is not empty.
found_length : (xml : Text) (rel : ℕ) → find bucket_open xml ≡ some rel → 0 < length xml
unfolding find
found_length [] rel h = cc h
found_length (c ∷ xml) rel h = omega arith

parse_rounds-short : (rounds : ℕ) (xml : Text) → length xml ≤ 0 → parse_rounds rounds xml ≡ []
unfolding find
parse_rounds-short rounds [] h = parse_rounds-end rounds [] refl
parse_rounds-short rounds (c ∷ xml) h = absurd (omega arith)

-- Two numbers of rounds, each at least the length of the text, read the same buckets.
parse_rounds-unclosed :
    (rounds : ℕ) (xml : Text) (rel : ℕ)
    → find bucket_open xml ≡ some rel
    → find bucket_close (drop rel xml) ≡ none
    → parse_rounds rounds xml ≡ []
unfolding parse_rounds
parse_rounds-unclosed zero xml rel h k = refl
parse_rounds-unclosed (suc rounds) xml rel h k = rw (parse_rounds, h, k) refl

parse_rounds-same :
    (m n : ℕ) (xml : Text)
    → length xml ≤ m
    → length xml ≤ n
    → parse_rounds m xml ≡ parse_rounds n xml
parse_rounds-same zero zero xml hm hn = refl
parse_rounds-same zero (suc n) xml hm hn =
    parse_rounds-short zero xml hm ∙ sym (parse_rounds-short (suc n) xml hm)
parse_rounds-same (suc m) zero xml hm hn =
    parse_rounds-short (suc m) xml hn ∙ sym (parse_rounds-short zero xml hn)
parse_rounds-same (suc m) (suc n) xml hm hn = elim (Option-cases (find bucket_open xml)) [
  | inl e ↦ parse_rounds-end (suc m) xml e ∙ sym (parse_rounds-end (suc n) xml e)
  | inr (rel, e) ↦ elim (Option-cases (find bucket_close (drop rel xml))) [
    | inl k ↦
        parse_rounds-unclosed (suc m) xml rel e k ∙ sym (parse_rounds-unclosed (suc n) xml rel e k)
    | inr (i, k) ↦
        let rest = drop (i + length bucket_close) (drop rel xml) in
        let shorter : length rest < length xml = omega (
          arith,
          found_length xml rel e,
          length-drop (i + length bucket_close) (drop rel xml),
          length-drop rel xml,
        ) in
        parse_rounds-found m xml rel i e k
        ∙ ap (push_bucket (take (i + length bucket_close) (drop rel xml)))
            (parse_rounds-same m n rest (omega arith) (omega arith))
        ∙ sym (parse_rounds-found n xml rel i e k)
  ]
]

-- The loop reads with any number of rounds from the length of the text on what it reads with that number:
-- it never stops for want of rounds.
pub parse_rounds-enough :
    (rounds : ℕ) (xml : Text)
    → length xml ≤ rounds
    → parse_rounds rounds xml ≡ parse_list_buckets_xml xml
unfolding parse_list_buckets_xml
parse_rounds-enough rounds xml h = parse_rounds-same rounds (length xml) xml h (omega arith)
