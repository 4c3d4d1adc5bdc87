-- ===== src/Revision/Naming.antt =====
-- controller/composite/controller_revision.go: the names of revisions. A text is a row of characters,
-- where Go counts bytes: the names that make a prefix are ASCII. The hash function is a parameter.
pub mod Length
use Prim.Native.String.{◌++◌ as append}
use metac.Prelude.{
  ℕ, zero, suc, ◌+◌, ◌-◌, ◌/◌, ◌%◌, String, Bool, true, false, List, [], ◌∷◌, ltb, ◌==◌,
  if◌then◌else◌,
}
use metac.Prelude.Text.{concat}

unfoldable pub text_length : String → ℕ
text_length String.[] = 0
text_length (String.◌∷◌ c s) = suc (text_length s)

-- s[:n]
unfoldable pub text_take : ℕ → String → String
text_take zero s = ""
text_take (suc n) String.[] = ""
text_take (suc n) (String.◌∷◌ c s) = String.◌∷◌ c (text_take n s)

-- The character at a position, as a text of one; the positions are below 16 here.
unfoldable pub digit_at : ℕ → String → String
digit_at n String.[] = "0"
digit_at zero (String.◌∷◌ c s) = String.◌∷◌ c ""
digit_at (suc n) (String.◌∷◌ c s) = digit_at n s

abbrev pub hex_digit : ℕ → String
hex_digit n = digit_at n "0123456789abcdef"

-- hex.EncodeToString
unfoldable pub encode_to_string : List ℕ → String
encode_to_string [] = ""
encode_to_string (byte ∷ bytes) =
    append (hex_digit (byte / 16)) (append (hex_digit (byte % 16)) (encode_to_string bytes))

module _ (sha1_sum : String → List ℕ) where
  -- The hash of what is written to the hasher, in this order.
  unfoldable pub controller_revision_hash : String → String → String
  controller_revision_hash parent_uid patch_data =
      encode_to_string (sha1_sum (append parent_uid patch_data))

  abbrev pub fully_qualified : String → String → String
  fully_qualified resource api_group =
      append resource (append "." (if api_group == "" then "core" else api_group))

  abbrev pub cut_prefix : String → String
  cut_prefix prefix =
      if ltb (253 - 41) (text_length prefix) then text_take (253 - 41) prefix else prefix

  unfoldable pub controller_revision_name : String → String → String → String → String
  controller_revision_name resource api_group parent_uid patch_data =
      append (cut_prefix (fully_qualified resource api_group))
        (append "-" (controller_revision_hash parent_uid patch_data))
