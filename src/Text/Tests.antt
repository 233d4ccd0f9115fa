-- ===== src/Text/Tests.antt =====
-- Runs of the text functions.
use mydocker.Text.Repair.{to_valid_utf8}
use mydocker.Text.Json.{json_valid}
use mydocker.Base.{◌≡◌, refl, true, false, [], ◌∷◌, map}
use mydocker.Text.Utf8.{text_eq, bytes, valid_utf8}
use mydocker.Text.Trim.{trim_space}
use mydocker.Text.FilePath.{is_clean_abs}
use mydocker.Text.Address.{is_ip}

accepted :
    map is_ip (
      bytes "8.8.8.8"
      ∷ bytes "::1"
      ∷ bytes "fe80::1:2"
      ∷ bytes "::ffff:1.2.3.4"
      ∷ bytes "1:2:3:4:5:6:7:8"
      ∷ bytes "::"
      ∷ bytes "1::"
      ∷ [])
    ≡ true ∷ true ∷ true ∷ true ∷ true ∷ true ∷ true ∷ []
unfolding is_ip
accepted = refl

refused :
    map is_ip (
      bytes "8.8.8"
      ∷ bytes "08.8.8.8"
      ∷ bytes "256.1.1.1"
      ∷ bytes "1::2::3"
      ∷ bytes "fe80::1%eth0"
      ∷ bytes "1:2:3:4:5:6:7::8:9"
      ∷ bytes "::ffff:1.2.3"
      ∷ bytes "12345::"
      ∷ bytes ""
      ∷ [])
    ≡ false ∷ false ∷ false ∷ false ∷ false ∷ false ∷ false ∷ false ∷ false ∷ []
unfolding is_ip
refused = refl

clean_paths :
    map is_clean_abs
      (bytes "/" ∷ bytes "/bin/sh" ∷ bytes "bin" ∷ bytes "/a/../b" ∷ bytes "/a/" ∷ [])
    ≡ true ∷ true ∷ false ∷ false ∷ false ∷ []
unfolding is_clean_abs
clean_paths = refl

trimmed : trim_space (0x20 ∷ 0xe2 ∷ 0x80 ∷ 0x83 ∷ 0x61 ∷ 0x20 ∷ 0x62 ∷ 0x0a ∷ []) ≡ bytes "a b"
unfolding trim_space
trimmed = refl

utf8 :
    map valid_utf8
      (bytes "ok" ∷ (0xc0 ∷ 0x80 ∷ []) ∷ (0xed ∷ 0xa0 ∷ 0x80 ∷ []) ∷ (0xe2 ∷ 0x82 ∷ 0xac ∷ []) ∷ [])
    ≡ true ∷ false ∷ false ∷ true ∷ []
unfolding valid_utf8
utf8 = refl

json :
    map json_valid (
      bytes "{\"a\": [1, -0.5e+3, {}], \"b\\u00e9\": null}"
      ∷ bytes " [] "
      ∷ bytes "{}"
      ∷ bytes "12"
      ∷ bytes "\"x\""
      ∷ [])
    ≡ true ∷ true ∷ true ∷ true ∷ true ∷ []
unfolding json_valid
json = refl

not_json :
    map json_valid (
      bytes ""
      ∷ bytes "{a:1}"
      ∷ bytes "[1,]"
      ∷ bytes "01"
      ∷ bytes "1."
      ∷ bytes "tru"
      ∷ bytes "{} {}"
      ∷ bytes "[}"
      ∷ [])
    ≡ false ∷ false ∷ false ∷ false ∷ false ∷ false ∷ false ∷ false ∷ []
unfolding json_valid
not_json = refl

repaired :
    to_valid_utf8 (0x61 ∷ 0xff ∷ 0xfe ∷ 0xc3 ∷ 0xa9 ∷ 0xe2 ∷ [])
    ≡ 0x61 ∷ 0xef ∷ 0xbf ∷ 0xbd ∷ 0xc3 ∷ 0xa9 ∷ 0xef ∷ 0xbf ∷ 0xbd ∷ []
unfolding to_valid_utf8
repaired = refl
