-- ===== src/Tokens/Laws.antt =====
-- What tokens.py relies on in the standard library.
use new_mud_codex.Shared.{ℕ, ◌+◌, ◌%◌, ◌<◌, ◌≡◌, some, ◌++◌, length, replicate}
use new_mud_codex.Shared.Text.{Text, Free}
use new_mud_codex.Tokens.{Crypto}

-- `uuid` and `int` read back what they print, and print no dot; base64 pads its text, in which no
-- dot and no `=` stands, to a multiple of four characters, and reads it back.
pub record Laws (c : Crypto) : Type 0 where
  pub uuid_of_hex-hex : (u : ℕ) → c.uuid_of_hex (c.hex u) ≡ some u
  pub uuid_of_hex-str_of_uuid : (u : ℕ) → c.uuid_of_hex (c.str_of_uuid u) ≡ some u
  pub int_of_str-str_of_int : (n : ℕ) → c.int_of_str (c.str_of_int n) ≡ some n
  pub hex-Free : (u : ℕ) → Free b'.' (c.hex u)
  pub str_of_int-Free : (n : ℕ) → Free b'.' (c.str_of_int n)
  pub b64decode-b64encode : (t : Text) → c.urlsafe_b64decode (c.urlsafe_b64encode t) ≡ some t
  pub b64_body : Text → Text
  pub b64_pads : Text → ℕ
  pub b64_shape : (t : Text) → c.urlsafe_b64encode t ≡ b64_body t ++ replicate (b64_pads t) b'='
  pub b64_body-Free : (t : Text) → Free b'.' (b64_body t)
  pub b64_body-Free_pad : (t : Text) → Free b'=' (b64_body t)
  pub b64_pads-lt : (t : Text) → b64_pads t < 4
  pub b64_length : (t : Text) → (length (b64_body t) + b64_pads t) % 4 ≡ 0
