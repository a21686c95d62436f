-- ===== src/Examples/Machine.antt =====
-- A machine to upgrade on: nothing is refused, and every artifact has the digest "d".
use vasal.Prelude.{
  ℕ, String, str_eq, eq_iff, none, some, List, [], ◌∷◌, Bool, true, false, length, ◌==◌, ==_iff,
  ◌≡◌, ◌≢◌, refl, sym, ap, ◌∙◌, join, if◌then◌else◌,
}
use vasal.Prelude.Results.{Result, ok, err}
use vasal.Protocol.Sidecar.{healthy}
use vasal.Store.Sql.{empty}
use vasal.Host.Act.{World}
use vasal.Host.Attempt.{io}
use vasal.Host.Files.{Node, Files}
use vasal.Host.System.{System, body, cancelled, finished}
use vasal.SelfUpgrade.{
  StateFormat, state_of, backup_file, state_file, new_file, execute, rollback, check_pending,
}
use vasal.SelfUpgrade.Exchange.{Apart, Replaced}
use vasal.SelfUpgrade.Laws.{execute_failed, execute-Replaced}
use vasal.SelfUpgrade.Pending.{Readable, check_pending-execute, rollback-execute}
use vasal.Examples.{host}

abbrev pub machine : System String
machine = record {
  refuse_io = λ t. none;
  torn = λ t. none;
  not_found = "not found";
  created_mode = 420;
  download = λ t url. body (7 ∷ []);
  sha256_hex = λ bytes. "d";
  current_exe = ok "/bin/vasal";
  utf8 = λ text. [];
  from_utf8 = λ bytes. ok "state";
  run = λ t program arguments. ok (some 0);
  run_files = λ t program arguments files. files;
  output = λ t script ms. finished (some 0) [];
  shut_down_in_sleep = λ t ms. false;
  select_tick = λ t ms. cancelled;
  lower = λ text. text;
  trim = λ text. text;
  as_u64 = λ v. none;
  read_health =
      λ v. ok (record { status = healthy; version = none; error = none; metadata = none });
  start = λ t program arguments. ok (some 42);
}

-- The sixth event, the rename, is refused.
abbrev full_disk : System String
full_disk = record machine { refuse_io = λ t. if length t == 5 then some "no space left" else none }

abbrev pub states : StateFormat
states = record {
  pretty = λ s. if s.initiated_at == 0 then ok "state" else err "late";
  parse = λ text. ok (state_of "2" "1" "/var/vasal.1.bak" 0);
}

abbrev old : Node
old = record { content = 1 ∷ []; mode = 493 }

-- The agent's binary, and nothing else.
abbrev only_exe : Files
only_exe = λ p. if str_eq p "/bin/vasal" then some old else none

abbrev pub installed : World String
installed = record { trace = []; store = empty; files = only_exe }

true≢false : true ≡ false → ⊥
true≢false h = cc

pub differ : (a b : String) → str_eq a b ≡ false → a ≢ b
differ a b h e = true≢false (sym ((eq_iff a b).1 e) ∙ h)

apart :
    Apart "/bin/vasal"
      (join "/var" (backup_file "1"))
      (join "/var" state_file)
      (join "/var" new_file)
unfolding join
apart = record {
  exe-backup = differ _ _ refl;
  exe-state = differ _ _ refl;
  exe-new = differ _ _ refl;
  backup-state = differ _ _ refl;
  backup-new = differ _ _ refl;
  state-new = differ _ _ refl;
}

execute_failed_example :
    (execute host full_disk states "https://a" "d" "2" "1" "/var" installed).1.files "/bin/vasal"
    ≡ some old
unfolding execute
execute_failed_example =
    execute_failed host full_disk states "https://a" "d" "2" "1" "/var" "/bin/vasal" refl apart
      installed (io "no space left") refl

-- The world after the upgrade.
abbrev upgraded : World String
upgraded = (execute host machine states "https://a" "d" "2" "1" "/var" installed).1

execute-Replaced_example :
    (bytes : List ℕ) × (machine.sha256_hex bytes ≡ "d")
    × Replaced machine states "/bin/vasal"
        (join "/var" (backup_file "1"))
        (join "/var" state_file)
        (state_of "2" "1" (join "/var" (backup_file "1")))
        bytes
        old
        upgraded
unfolding execute
execute-Replaced_example =
    execute-Replaced host machine states "https://a" "d" "2" "1" "/var" "/bin/vasal" refl apart old
      installed refl refl

printed : (r : Result String String) (a text : String) → r ≡ ok a → r ≡ ok text → a ≡ text
printed r a text h h' = cc

late : (r : Result String String) (e text : String) → r ≡ err e → r ≡ ok text → ⊥
late r e text h h' = cc

pretty-zero :
    (at : ℕ) (b : Bool) (text : String)
    → (at == 0) ≡ b
    → if◌then◌else◌ {A = Result String String} b (ok "state") (err "late") ≡ ok text
    → (at ≡ 0) × ("state" ≡ text)
pretty-zero at true text e h = ((==_iff at 0).0 e, printed (ok "state") "state" text refl h)
pretty-zero at false text e h = absurd (late (err "late") "late" text refl h)

readable : (at : ℕ) → Readable machine states (state_of "2" "1" (join "/var" (backup_file "1")) at)
unfolding join
readable at = record {
  text_back = λ text h. ap (λ t. ok t) (pretty-zero at (at == 0) text refl h).1;
  state_back = λ text h.
      ap (λ n. ok (state_of "2" "1" "/var/vasal.1.bak" n))
        (sym (pretty-zero at (at == 0) text refl h).0);
}

check_pending-execute_example :
    (at : ℕ) × ((check_pending machine states "/var" upgraded).0
      ≡ some (state_of "2" "1" (join "/var" (backup_file "1")) at))
unfolding execute
check_pending-execute_example =
    check_pending-execute host machine states (λ t. refl) "https://a" "d" "2" "1" "/var"
      "/bin/vasal" readable refl apart old installed refl refl

rollback-execute_example :
    (rollback machine (state_of "2" "1" (join "/var" (backup_file "1")) 0) upgraded).1.files
      "/bin/vasal"
    ≡ some old
unfolding execute rollback
rollback-execute_example =
    rollback-execute host machine states "https://a" "d" "2" "1" "/var" "/bin/vasal" refl apart old
      0 installed refl refl refl
