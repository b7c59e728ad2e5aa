-- ===== src/Server/Startup/Tests.antt =====
-- The start of the server at a concrete environment, with a disk on which no call succeeds but the first.
use free_box.Prelude.{ℕ, ◌+◌, true, none, some, bytes_eq, if◌then◌else◌}
use free_box.Outcome.{err}
use free_box.Server.Files.Keys.{codes}
use free_box.Storage.Local.{Operator, Fault}
use free_box.Storage.S3.Lifecycle.{unreached}
use free_box.Server.Config.{Config, Env}
use free_box.Server.Startup.{Outside}

abbrev broken : Operator ℕ
broken = record {
  write = λ key bytes d. (err Fault.unexpected, d);
  read = λ key d. err Fault.unexpected;
  read_range = λ key from to d. err Fault.unexpected;
  delete = λ key d. (err Fault.unexpected, d);
  list_with = λ prefix d. err Fault.unexpected;
  is_exist = λ key d. err Fault.unexpected;
  stat_with = λ key d. err Fault.unexpected;
  presign_read = λ key expires d. err Fault.unexpected;
}

abbrev outside : Outside ℕ
outside = record {
  machine = record { create_dir_all = λ root d. (true, d + 1); operator_at = λ root. some broken };
  cloud = record {
    operator_of = λ builder. none;
    list_root = λ operator d. unreached;
    web = record { url_parse = λ url. none; send = λ request s. (none, s) };
    digests = record {
      sha256 = λ bytes. bytes;
      hmac_sha256 = λ key bytes. bytes;
      encode = λ bytes. bytes;
    };
    now = record { date = codes "20240501"; datetime = codes "20240501T000000Z" };
  };
  url_parse = λ url. none;
}

abbrev env : Env
env key =
    if bytes_eq key (codes "DATABASE_URL")
    then some (codes "postgres://localhost/freebox")
    else if bytes_eq key (codes "JWT_SECRET")
    then some (codes "secret")
    else none
