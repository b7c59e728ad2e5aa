-- ===== src/Storage/S3/Bucket/Xml.antt =====
-- `parse_list_buckets_xml` of plugins/storage-s3/src/bucket.rs reads the buckets of a ListBuckets response.
use free_box.Prelude.{
  ℕ, zero, suc, ◌+◌, ◌≤◌, ◌<◌, ◌≡◌, refl, sym, ap, ◌∙◌, Bool, true, not, ◌&&◌, Option, none, some,
  List, [], ◌∷◌, ◌++◌, append_assoc, length, length-append, take, drop, all, arith,
}
use free_box.Server.Files.Keys.{Text, codes}
use free_box.Texts.{find, is_empty}
use free_box.Texts.Find.{
  advance, advance-none, advance-length, Skips, Skips-append, lacks, lacks-Skips, find-append,
  take-length_append, drop-length_append,
}
use free_box.Storage.S3.Bucket.{
  BucketInfo, bucket_open, bucket_close, extract_tag, push_bucket, parse_rounds,
  parse_list_buckets_xml,
}

-- The part of a response that describes a bucket, and a response.
abbrev pub date_tag : Option Text → Text
date_tag none = []
date_tag (some date) = codes "<CreationDate>" ++ date ++ codes "</CreationDate>"

abbrev pub inside : BucketInfo → Text
inside b = codes "<Bucket><Name>" ++ b.name ++ codes "</Name>" ++ date_tag b.creation_date

abbrev pub entries : List BucketInfo → Text
entries [] = []
entries (b ∷ bs) = (inside b ++ bucket_close) ++ entries bs

abbrev pub response_open : Text
response_open = codes "<?xml version=\"1.0\" encoding=\"UTF-8\"?><ListAllMyBucketsResult><Buckets>"

abbrev pub response_close : Text
response_close = codes "</Buckets></ListAllMyBucketsResult>"

abbrev pub print_response : List BucketInfo → Text
print_response bs = response_open ++ entries bs ++ response_close

-- A name, and a date if there is one, without the character that opens a tag.
abbrev pub is_plain_date : Option Text → Bool
is_plain_date none = true
is_plain_date (some date) = lacks b'<' date

abbrev pub is_plain : BucketInfo → Bool
is_plain b = not (is_empty b.name) && (lacks b'<' b.name && is_plain_date b.creation_date)

-- The value of a tag that does not begin before its place.
extract_tag-value :
    (tag before value after : Text)
    → Skips (b'<' ∷ tag ++ b'>' ∷ []) before
    → lacks b'<' value ≡ true
    → extract_tag
        (before
          ++ ((b'<' ∷ tag ++ b'>' ∷ []) ++ (value ++ ((codes "</" ++ tag ++ b'>' ∷ []) ++ after))))
        tag
      ≡ some value
unfolding extract_tag
extract_tag-value tag before value after skips plain =
    let opening = b'<' ∷ tag ++ b'>' ∷ [] in
    let closing = codes "</" ++ tag ++ b'>' ∷ [] in
    let rest = value ++ (closing ++ after) in
    let place : find opening (before ++ (opening ++ rest)) ≡ some (length before) =
      skips (opening ++ rest)
      ∙ ap (advance before) (find-append b'<' (tag ++ b'>' ∷ []) rest)
      ∙ advance-length before in
    let size : length before + (length tag + 2) ≡ length (before ++ opening) =
      omega (arith, length-append before opening, length-append tag (b'>' ∷ [])) in
    let inner : drop (length before + (length tag + 2)) (before ++ (opening ++ rest)) ≡ rest =
      ap (λ n. drop n (before ++ (opening ++ rest))) size
      ∙ ap (drop (length (before ++ opening))) (sym (append_assoc before opening rest))
      ∙ drop-length_append (before ++ opening) rest in
    let ending : find closing rest ≡ some (length value) =
      lacks-Skips b'<' (b'/' ∷ tag ++ b'>' ∷ []) value plain (closing ++ after)
      ∙ ap (advance value) (find-append b'<' (b'/' ∷ tag ++ b'>' ∷ []) after)
      ∙ advance-length value in
    rw (place, inner, ending) (ap some (take-length_append value (closing ++ after)))

abbrev named : Text → Text
named name = codes "<Bucket><Name>" ++ name ++ codes "</Name>"

Skips-named :
    (pattern name : Text)
    → lacks b'<' name ≡ true
    → Skips (b'<' ∷ pattern) (codes "<Bucket><Name>")
    → Skips (b'<' ∷ pattern) (codes "</Name>")
    → Skips (b'<' ∷ pattern) (named name)
Skips-named pattern name plain before after =
    let all_of = codes "<Bucket><Name>" ++ name in
    Skips-append (b'<' ∷ pattern) all_of (codes "</Name>")
      (Skips-append (b'<' ∷ pattern) (codes "<Bucket><Name>") name before
        (lacks-Skips b'<' pattern name plain))
      after

-- A bucket's part without its closing tag does not end the part.
Skips-date_tag :
    (date : Option Text) → is_plain_date date ≡ true → Skips bucket_close (date_tag date)
unfolding find
Skips-date_tag none h = λ rest. refl
Skips-date_tag (some date) h =
    Skips-append bucket_close (codes "<CreationDate>" ++ date) (codes "</CreationDate>")
      (Skips-append bucket_close (codes "<CreationDate>") date (λ rest. refl)
        (lacks-Skips b'<' (codes "/Bucket>") date h))
      (λ rest. refl)

Skips-inside : (b : BucketInfo) → is_plain b ≡ true → Skips bucket_close (inside b)
unfolding find
Skips-inside b h =
    Skips-append bucket_close (named b.name) (date_tag b.creation_date)
      (Skips-named (codes "/Bucket>") b.name (ground arith) (λ rest. refl) (λ rest. refl))
      (Skips-date_tag b.creation_date (ground arith))

extract_name :
    (b : BucketInfo)
    → is_plain b ≡ true
    → extract_tag (inside b ++ bucket_close) (codes "Name") ≡ some b.name
unfolding find
extract_name b h =
    let after = date_tag b.creation_date ++ bucket_close in
    ap (λ rest. extract_tag (codes "<Bucket><Name>" ++ rest) (codes "Name"))
      (append_assoc (b.name ++ codes "</Name>") (date_tag b.creation_date) bucket_close
        ∙ append_assoc b.name (codes "</Name>") after)
    ∙ extract_tag-value (codes "Name") (codes "<Bucket>") b.name after (λ rest. refl) (ground arith)

extract_tag-missing :
    (tag s : Text) → find (b'<' ∷ tag ++ b'>' ∷ []) s ≡ none → extract_tag s tag ≡ none
unfolding extract_tag
extract_tag-missing tag s h = rw h refl

extract_date_of :
    (name : Text) (date : Option Text)
    → lacks b'<' name ≡ true
    → is_plain_date date ≡ true
    → extract_tag (named name ++ date_tag date ++ bucket_close) (codes "CreationDate") ≡ date
unfolding find
extract_date_of name none plain h =
    let pattern = codes "CreationDate>" in
    let skips =
      Skips-append (b'<' ∷ pattern) (named name) []
        (Skips-named pattern name plain (λ rest. refl) (λ rest. refl)) (λ rest. refl) in
    extract_tag-missing (codes "CreationDate") (named name ++ [] ++ bucket_close)
      (skips bucket_close ∙ advance-none (named name ++ []))
extract_date_of name (some date) plain h =
    ap (λ text. extract_tag text (codes "CreationDate"))
      (append_assoc (named name) (date_tag (some date)) bucket_close
        ∙ ap (λ rest. named name ++ (codes "<CreationDate>" ++ rest))
            (append_assoc date (codes "</CreationDate>") bucket_close))
    ∙ extract_tag-value (codes "CreationDate") (named name) date bucket_close
        (Skips-named (codes "CreationDate>") name plain (λ rest. refl) (λ rest. refl)) h

-- The bucket is read from its part.
push_bucket-inside :
    (b : BucketInfo) (buckets : List BucketInfo)
    → is_plain b ≡ true
    → push_bucket (inside b ++ bucket_close) buckets ≡ b ∷ buckets
push_bucket-inside b buckets h =
    rw (extract_name b h, extract_date_of b.name b.creation_date (ground arith) (ground arith))
      (ground arith)

find-close :
    (b : BucketInfo) (rest : Text)
    → is_plain b ≡ true
    → find bucket_close (inside b ++ (bucket_close ++ rest)) ≡ some (length (inside b))
find-close b rest h =
    Skips-inside b h (bucket_close ++ rest)
    ∙ ap (advance (inside b)) (find-append b'<' (codes "/Bucket>") rest)
    ∙ advance-length (inside b)

-- A round of the loop, and its end.
pub parse_rounds-found :
    (rounds : ℕ) (xml : Text) (rel e : ℕ)
    → find bucket_open xml ≡ some rel
    → find bucket_close (drop rel xml) ≡ some e
    → let size = e + length bucket_close in
      parse_rounds (suc rounds) xml
      ≡ push_bucket (take size (drop rel xml)) (parse_rounds rounds (drop size (drop rel xml)))
unfolding parse_rounds
parse_rounds-found rounds xml rel e h k = rw (parse_rounds, h, k) refl

pub parse_rounds-end :
    (rounds : ℕ) (xml : Text) → find bucket_open xml ≡ none → parse_rounds rounds xml ≡ []
unfolding parse_rounds
parse_rounds-end zero xml h = refl
parse_rounds-end (suc rounds) xml h = rw (parse_rounds, h) refl

-- Text before the first bucket does not matter.
parse_rounds-skip :
    (rounds e : ℕ) (before text : Text)
    → Skips bucket_open before
    → find bucket_open text ≡ some 0
    → find bucket_close text ≡ some e
    → parse_rounds (suc rounds) (before ++ text) ≡ parse_rounds (suc rounds) text
parse_rounds-skip rounds e before text skips starts ends =
    let rel = length before in
    let place : find bucket_open (before ++ text) ≡ some rel =
      skips text ∙ ap (advance before) starts ∙ advance-length before in
    let dropped = drop-length_append before text in
    parse_rounds-found rounds (before ++ text) rel e place (ap (find bucket_close) dropped ∙ ends)
    ∙ ap
        (λ start.
          push_bucket (take (e + length bucket_close) start)
            (parse_rounds rounds (drop (e + length bucket_close) start)))
        dropped
    ∙ sym (parse_rounds-found rounds text 0 e starts ends)

-- One round reads one bucket.
parse_rounds-inside :
    (rounds : ℕ) (b : BucketInfo) (rest : Text)
    → is_plain b ≡ true
    → find bucket_open (inside b ++ (bucket_close ++ rest)) ≡ some 0
    → parse_rounds (suc rounds) (inside b ++ (bucket_close ++ rest)) ≡ b ∷ parse_rounds rounds rest
parse_rounds-inside rounds b rest h starts =
    let text = inside b ++ (bucket_close ++ rest) in
    let part = inside b ++ bucket_close in
    let ends = find-close b rest h in
    let size : length (inside b) + length bucket_close ≡ length part =
      sym (length-append (inside b) bucket_close) in
    let text_is : text ≡ part ++ rest = sym (append_assoc (inside b) bucket_close rest) in
    let first : take (length (inside b) + length bucket_close) text ≡ part =
      ap (λ n. take n text) size ∙ ap (take (length part)) text_is ∙ take-length_append part rest in
    let later : drop (length (inside b) + length bucket_close) text ≡ rest =
      ap (λ n. drop n text) size ∙ ap (drop (length part)) text_is ∙ drop-length_append part rest in
    parse_rounds-found rounds text 0 (length (inside b)) starts ends
    ∙ ap
        (λ chunk.
          push_bucket chunk
            (parse_rounds rounds (drop (length (inside b) + length bucket_close) text)))
        first
    ∙ ap (λ xml. push_bucket part (parse_rounds rounds xml)) later
    ∙ push_bucket-inside b (parse_rounds rounds rest) h

find-entries :
    (b : BucketInfo) (bs : List BucketInfo)
    → find bucket_open (inside b ++ (bucket_close ++ (entries bs ++ response_close))) ≡ some 0
unfolding find
find-entries b bs = refl

find-after : find bucket_open response_close ≡ none
unfolding find
find-after = refl

parse_rounds-entries :
    (rounds : ℕ) (bs : List BucketInfo)
    → length bs ≤ rounds
    → all is_plain bs ≡ true
    → parse_rounds rounds (entries bs ++ response_close) ≡ bs
parse_rounds-entries rounds [] le h = parse_rounds-end rounds response_close find-after
parse_rounds-entries zero (b ∷ bs) le h = absurd (omega arith)
parse_rounds-entries (suc rounds) (b ∷ bs) le h =
    ap (parse_rounds (suc rounds)) (
      append_assoc (inside b ++ bucket_close) (entries bs) response_close
      ∙ append_assoc (inside b) bucket_close (entries bs ++ response_close))
    ∙ parse_rounds-inside rounds b (entries bs ++ response_close) (ground arith) (find-entries b bs)
    ∙ ap (λ rest. b ∷ rest) (parse_rounds-entries rounds bs (omega arith) (ground arith))

length-entries : (bs : List BucketInfo) → length bs ≤ length (entries bs)
length-entries [] = omega arith
length-entries (b ∷ bs) = omega (
  arith,
  length-append (inside b ++ bucket_close) (entries bs),
  length-append (inside b) bucket_close,
  length-entries bs,
)

Skips-response_open : Skips bucket_open response_open
unfolding find
Skips-response_open rest = refl

find-response_close : find bucket_open (response_open ++ [] ++ response_close) ≡ none
unfolding find
find-response_close = refl

print_response-parsed :
    (rounds : ℕ) (bs : List BucketInfo)
    → length bs < rounds
    → all is_plain bs ≡ true
    → parse_rounds rounds (print_response bs) ≡ bs
print_response-parsed zero bs le h = absurd (omega arith)
print_response-parsed (suc rounds) [] le h =
    parse_rounds-end (suc rounds) (print_response []) find-response_close
print_response-parsed (suc rounds) (b ∷ bs) le h =
    let rest = entries bs ++ response_close in
    let text = inside b ++ (bucket_close ++ rest) in
    let regrouped : print_response (b ∷ bs) ≡ response_open ++ text =
      append_assoc response_open (entries (b ∷ bs)) response_close
      ∙ ap (λ xml. response_open ++ xml)
          (append_assoc (inside b ++ bucket_close) (entries bs) response_close
            ∙ append_assoc (inside b) bucket_close rest) in
    ap (parse_rounds (suc rounds)) regrouped
    ∙ parse_rounds-skip rounds (length (inside b)) response_open text Skips-response_open
        (find-entries b bs) (find-close b rest (ground arith))
    ∙ parse_rounds-inside rounds b rest (ground arith) (find-entries b bs)
    ∙ ap (λ later. b ∷ later) (parse_rounds-entries rounds bs (omega arith) (ground arith))

-- Take buckets whose names are not empty and whose names and dates have no `<`. From the response that
-- lists them, the loop reads exactly these buckets, in their order, with their dates.
pub parse_list_buckets_xml-print_response :
    (bs : List BucketInfo)
    → all is_plain bs ≡ true
    → parse_list_buckets_xml (print_response bs) ≡ bs
unfolding parse_list_buckets_xml
parse_list_buckets_xml-print_response bs h =
    print_response-parsed (length (print_response bs)) bs
      (omega (
        arith,
        length-entries bs,
        length-append (response_open ++ entries bs) response_close,
        length-append response_open (entries bs),
      ))
      h
