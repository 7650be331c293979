-- ===== src/Redact/Tests.antt =====
-- Runs of the redaction, and its theorems at concrete texts.
use docker_local.Common.{◌≡◌, refl, [], true, false, some, arith}
use docker_local.Common.Text.{Text, codes, to_upper, trim_space}
use docker_local.Redact.Loop.{Redactor, initial, is_sensitive_command, main_loop, redact}
use docker_local.Redact.Segments.{Segmented, redact-Segmented}
use docker_local.Redact.Secrecy.{parameter, redact_hides_value}

abbrev command : Text
command = codes " ALTER AUTHINFO(X) ldappwd ('a)b') PASS+\n 3: WORD(\"s\n* )\nq\") DESCR(hi)\n"

redact-command :
    redact command
    ≡ some (codes "ALTER AUTHINFO(X) ldappwd (*********) PASS+\n 3: WORD(*********) DESCR(hi)")
unfolding redact
redact-command = refl

redact-open_value : redact (codes "PASSWORD('x)") ≡ some (codes "PASSWORD(*********)")
unfolding redact
redact-open_value = refl

redact-Segmented_example : Segmented [] (trim_space command) (redact command)
redact-Segmented_example = redact-Segmented command

-- Behind a word that a gap has ended.
abbrev after_gap : Redactor
after_gap = record initial {
  original_string = codes "QMGR ";
  current_verb = codes "QMGR";
  found_gap = true;
  newline = false;
}

redact_hides_value_example :
    main_loop 40 after_gap (parameter (codes "SSLCRYP") (codes "one") (codes " DESCR(a)"))
    ≡ main_loop 50 after_gap (parameter (codes "SSLCRYP") (codes "two, 3") (codes " DESCR(a)"))
unfolding is_sensitive_command to_upper
redact_hides_value_example =
    redact_hides_value 40 50 after_gap (codes "SSLCRYP") (codes "one") (codes "two, 3")
      (codes " DESCR(a)") refl refl refl refl refl (omega arith) (omega arith)
