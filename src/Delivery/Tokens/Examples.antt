-- ===== src/Delivery/Tokens/Examples.antt =====
-- A token that is issued, read in time, too late, and for another recording.
use sintade.Prelude.{◌<◌, ◌≡◌, refl, ◌++◌, some, ok, err, arith, leb, if◌then◌else◌, All}
use sintade.Prelude.Text.{Text}
use sintade.Prelude.Lines.{split_once}
use sintade.Delivery.Tokens.{invalid, expired, dot, to_be_bytes, issue, verify}
use sintade.Delivery.Tokens.Genuine.{IsByte, verify-issue, verify_sound}
use sintade.Delivery.Scenario.{
  mac, encode, decode, id_bytes, mac-IsByte, encode-no_dot, decode-encode, decode-IsByte,
}

abbrev token : Text
token = issue mac encode decode (id_bytes 1) 1000

too_late : verify mac encode decode token (id_bytes 1) 1000 ≡ err expired
unfolding verify issue to_be_bytes
too_late = refl

not_its_recording : verify mac encode decode token (id_bytes 2) 999 ≡ err invalid
unfolding verify issue to_be_bytes
not_its_recording = refl

in_time : verify mac encode decode token (id_bytes 1) 999 ≡ ok 1000
unfolding verify issue to_be_bytes
in_time = refl

id-IsByte : All IsByte (id_bytes 1)
id-IsByte = omega arith

verify-issue_example :
    verify mac encode decode token (id_bytes 1) 999
    ≡ (if leb 1000 999 then err expired else ok 1000)
verify-issue_example =
    verify-issue mac encode decode (id_bytes 1) 1000 999 decode-encode encode-no_dot mac-IsByte refl
      id-IsByte (omega arith)

verify_sound_example :
    (parts : Text × Text) × (split_once dot token ≡ some parts)
    × (decode parts.0 ≡ some (id_bytes 1 ++ to_be_bytes 8 1000))
    × (decode parts.1 ≡ some (mac (id_bytes 1 ++ to_be_bytes 8 1000)))
    × (999 < 1000)
verify_sound_example =
    verify_sound mac encode decode token (id_bytes 1) 999 1000 decode-IsByte in_time
