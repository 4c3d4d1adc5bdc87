-- ===== src/Revision/Naming/Length.antt =====
-- How long the names of revisions are.
use Prim.Native.String.{◌++◌ as append}
use Prim.Native.String.append.{nil as append_nil, cons as append_cons}
use metac.Prelude.{
  ℕ, zero, suc, ◌+◌, ◌*◌, ◌/◌, ◌%◌, ◌≤◌, String, ◌≡◌, refl, List, [], ◌∷◌, length, ltb, inl, inr,
  Bool-cases, arith,
}
use metac.Revision.Naming.{
  text_length, text_take, digit_at, hex_digit, encode_to_string, controller_revision_hash,
  cut_prefix, fully_qualified, controller_revision_name,
}

length-append : (s t : String) → text_length (append s t) ≡ text_length s + text_length t
unfolding text_length
length-append String.[] t = rw (append_nil t) (omega arith)
length-append (String.◌∷◌ c s) t =
    let rest = length-append s t in rw (append_cons c s t) (omega arith)

length-take : (n : ℕ) (s : String) → text_length (text_take n s) ≤ n
unfolding text_length text_take
length-take zero s = omega arith
length-take (suc n) String.[] = omega arith
length-take (suc n) (String.◌∷◌ c s) = let rest = length-take n s in omega arith

length-digit_at : (n : ℕ) (s : String) → text_length (digit_at n s) ≡ 1
unfolding text_length digit_at
length-digit_at n String.[] = refl
length-digit_at zero (String.◌∷◌ c s) = refl
length-digit_at (suc n) (String.◌∷◌ c s) = length-digit_at n s

length-encode_to_string : (bytes : List ℕ) → text_length (encode_to_string bytes) ≡ 2 * length bytes
unfolding text_length encode_to_string
length-encode_to_string [] = refl
length-encode_to_string (b ∷ bytes) =
    let high =
      length-append (hex_digit (b / 16)) (append (hex_digit (b % 16)) (encode_to_string bytes)) in
    let low = length-append (hex_digit (b % 16)) (encode_to_string bytes) in
    let one = length-digit_at (b / 16) "0123456789abcdef" in
    let other = length-digit_at (b % 16) "0123456789abcdef" in
    let rest = length-encode_to_string bytes in omega arith

length-cut_prefix :
    (sha1_sum : String → List ℕ) (prefix : String) → text_length (cut_prefix sha1_sum prefix) ≤ 212
length-cut_prefix sha1_sum prefix = elim (Bool-cases (ltb 212 (text_length prefix))) [
  | inl long ↦ rw long (length-take 212 prefix)
  | inr short ↦ rw short (ground arith)
]

-- Let the hash have twenty bytes, as SHA-1 has. The name of a revision has at most 253 characters, whatever
-- the names of the resource and of its group are, and at least the 41 that tell revisions apart.
pub length-controller_revision_name :
    (sha1_sum : String → List ℕ)
    → ((text : String) → length (sha1_sum text) ≡ 20)
    → (resource api_group parent_uid patch_data : String)
    → (text_length (controller_revision_name sha1_sum resource api_group parent_uid patch_data)
        ≤ 253)
      × (41
          ≤ text_length
              (controller_revision_name sha1_sum resource api_group parent_uid patch_data))
unfolding controller_revision_name controller_revision_hash
length-controller_revision_name sha1_sum twenty resource api_group parent_uid patch_data =
    let hash = length-encode_to_string (sha1_sum (append parent_uid patch_data)) in
    let bytes = twenty (append parent_uid patch_data) in
    let cut = length-cut_prefix sha1_sum (fully_qualified sha1_sum resource api_group) in
    let dash : text_length "-" ≡ 1 = (unfold text_length in refl) in
    let prefix = cut_prefix sha1_sum (fully_qualified sha1_sum resource api_group) in
    let text = encode_to_string (sha1_sum (append parent_uid patch_data)) in
    let whole = length-append prefix (append "-" text) in
    let tail = length-append "-" text in (omega arith, omega arith)
