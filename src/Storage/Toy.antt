-- ===== src/Storage/Toy.antt =====
-- A disk, or a bucket, that is a function from keys to bytes, on which every call answers.
use free_box.Prelude.{ℕ, ◌≡◌, refl, true, Option, none, some, [], length, take, drop, ◌-◌}
use free_box.Outcome.{Result, ok, err, ok_or}
use free_box.Storage.{Bytes}
use free_box.Storage.Local.{Fault, not_found, Operator, Metadata}
use free_box.Storage.Local.Objects.{Objects, insert, remove, is_some, size_of, length_of, IsHealthy}

abbrev stat_of : Option Bytes → Result Fault Metadata
stat_of none = err not_found
stat_of (some bytes) =
    ok (record { is_file = true; content_length = length bytes; last_modified = none; etag = none })

length_of-stat_of : (o : Option Bytes) → length_of (stat_of o) ≡ ok_or (size_of o) not_found
length_of-stat_of none = refl
length_of-stat_of (some bytes) = refl

abbrev range_of : ℕ → ℕ → Option Bytes → Result Fault Bytes
range_of from to none = err not_found
range_of from to (some bytes) = ok (take (to - from) (drop from bytes))

abbrev pub operator : Operator Objects
operator = record {
  write = λ key bytes d. (ok tt, insert key bytes d);
  read = λ key d. ok_or (d key) not_found;
  read_range = λ key from to d. range_of from to (d key);
  delete = λ key d. (ok tt, remove key d);
  list_with = λ prefix d. ok [];
  is_exist = λ key d. ok (is_some (d key));
  stat_with = λ key d. stat_of (d key);
  presign_read = λ key expires d. err Fault.unexpected;
}

abbrev pub view : Objects → Objects
view d = d

pub healthy : IsHealthy Objects operator view
healthy = record {
  write_ok = λ key bytes d. refl;
  view-write = λ key bytes d k. refl;
  delete_ok = λ key d. refl;
  view-delete = λ key d k. refl;
  read_view = λ key d. refl;
  is_exist_view = λ key d. refl;
  stat_view = λ key d. length_of-stat_of (d key);
}

abbrev pub blank : Objects
blank key = none
