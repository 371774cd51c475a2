-- ===== src/Seri/Scalars.antt =====
-- skynet/lualib-src/lua-seri.c: reading back what is written for a value that is no table.
use skynet_athena.Base.{
  Bool, List, [], ap, append-nil, arith, dec_lt, false, if◌then◌else◌, leb, length, ltb, lt→ltb,
  refl, suc, sym, true, ℕ, ◌++◌, ◌<◌, ◌==◌, ◌^◌, ◌∙◌, ◌∷◌, ◌≡◌,
}
use skynet_athena.Seri.Value.{
  Value, boolean, combine_type, integer, le_bytes, max_cookie, nil, number_real, real, str,
  type_boolean, type_long_string, type_nil, type_number, type_short_string, type_userdata, userdata,
}
use skynet_athena.Seri.Blocks.{flatten}
use skynet_athena.Seri.Pack.{wb_boolean, wb_integer, wb_nil, wb_pointer, wb_real, wb_string}
use skynet_athena.Seri.Unpack.{get_buffer, get_long_string, ok, push_value, unpack_one}
use skynet_athena.Seri.Numbers.{
  rb_read-append, read_dword, read_qword, read_word, tag_fields, wb_integer-Reads,
}

-- `unpack_one` takes a tag apart.
pub unpack_tag :
    (fuel t v : ℕ) (rest : List ℕ)
    → t < 8
    → v < 32
    → unpack_one (suc fuel) (combine_type t v ∷ rest) ≡ push_value (unpack_one fuel) t v rest
unfolding unpack_one
unpack_tag fuel t v rest ht hv =
    let (type, cookie) = tag_fields t v ht hv in
    rw (rb_read-append 1 (combine_type t v ∷ []) rest refl) (rw (type, cookie) refl)

-- The bytes read back as the value, whatever follows them.
abbrev pub ReadsBack : ℕ → List (List ℕ) → Value → Type 0
ReadsBack fuel ws v = (rest : List ℕ) → unpack_one (suc fuel) (flatten ws ++ rest) ≡ ok (v, rest)

pub nil-ReadsBack : (fuel : ℕ) → ReadsBack fuel wb_nil nil
unfolding wb_nil push_value
nil-ReadsBack fuel rest =
    ap (λ t. unpack_one (suc fuel) (t ∷ rest)) (sym zero_tag)
    ∙ unpack_tag fuel type_nil 0 rest (omega arith) (omega arith)
  where
    zero_tag : combine_type 0 0 ≡ 0
    zero_tag = unfold combine_type in refl

pub boolean-ReadsBack : (fuel : ℕ) (b : Bool) → ReadsBack fuel (wb_boolean b) (boolean b)
unfolding wb_boolean push_value
boolean-ReadsBack fuel true rest = unpack_tag fuel type_boolean 1 rest (omega arith) (omega arith)
boolean-ReadsBack fuel false rest = unpack_tag fuel type_boolean 0 rest (omega arith) (omega arith)

pub integer-ReadsBack : (fuel p : ℕ) → p < 2 ^ 64 → ReadsBack fuel (wb_integer p) (integer p)
unfolding push_value
integer-ReadsBack fuel p h rest =
    let (cookie, raw, e, small, reads) = wb_integer-Reads p h in
    let not_real : (cookie == number_real) ≡ false = ground arith in
    ap (λ bs. unpack_one (suc fuel) (bs ++ rest)) e
    ∙ unpack_tag fuel type_number cookie (raw ++ rest) (omega arith) (omega arith)
    ∙ rw (not_real, reads rest) refl

pub real-ReadsBack : (fuel p : ℕ) → p < 2 ^ 64 → ReadsBack fuel (wb_real p) (real p)
unfolding wb_real push_value
real-ReadsBack fuel p h rest =
    unpack_tag fuel type_number number_real (le_bytes 8 p ++ rest) (omega arith) (omega arith)
    ∙ rw (read_qword p rest h) refl

pub userdata-ReadsBack : (fuel p : ℕ) → p < 2 ^ 64 → ReadsBack fuel (wb_pointer p) (userdata p)
unfolding wb_pointer push_value
userdata-ReadsBack fuel p h rest =
    ap (λ t. unpack_one (suc fuel) (t ∷ (le_bytes 8 p ++ rest))) (sym tag)
    ∙ unpack_tag fuel type_userdata 0 (le_bytes 8 p ++ rest) (omega arith) (omega arith)
    ∙ rw (read_qword p rest h) refl
  where
    tag : combine_type type_userdata 0 ≡ type_userdata
    tag = unfold combine_type in refl

get_buffer-append :
    (len : ℕ) (s rest : List ℕ)
    → len ≡ length s
    → len < 2 ^ 31
    → get_buffer len (s ++ rest) ≡ ok (str s, rest)
unfolding get_buffer
get_buffer-append len s rest e h =
    let small : leb (2 ^ 31) len ≡ false = ground arith in
    rw (small, rb_read-append len s rest e) refl

short_tail : (s : List ℕ) → flatten (if ltb 0 (length s) then s ∷ [] else []) ≡ s
short_tail [] = refl
short_tail (x ∷ xs) =
    let some_bytes : ltb 0 (length (x ∷ xs)) ≡ true = ground arith in
    rw some_bytes (append-nil (x ∷ xs))

pub str-ReadsBack :
    (fuel : ℕ) (s : List ℕ) → length s < 2 ^ 31 → ReadsBack fuel (wb_string s) (str s)
unfolding wb_string push_value get_long_string
str-ReadsBack fuel s h rest = elim (dec_lt (length s) max_cookie) [
  | yes short ↦ rw (lt→ltb _ _ short) (
      ap (λ b. unpack_one (suc fuel) (combine_type type_short_string (length s) ∷ (b ++ rest)))
        (short_tail s)
      ∙ unpack_tag fuel type_short_string (length s) (s ++ rest) (omega arith) short
      ∙ get_buffer-append (length s) s rest refl h)
  | no long ↦
      let long' : ltb (length s) max_cookie ≡ false = ground arith in
      elim (dec_lt (length s) 0x10000) [
        | yes word ↦
            rw (long', lt→ltb _ _ word)
              (ap
                  (λ b.
                    unpack_one (suc fuel)
                      (combine_type type_long_string 2 ∷ (le_bytes 2 (length s) ++ (b ++ rest))))
                  (append-nil s)
                ∙ unpack_tag fuel type_long_string 2 (le_bytes 2 (length s) ++ (s ++ rest))
                    (omega arith) (omega arith)
                ∙ rw (read_word (length s) (s ++ rest) word)
                    (get_buffer-append (length s) s rest refl h))
        | no dword ↦
            let dword' : ltb (length s) 0x10000 ≡ false = ground arith in
            rw (long', dword')
              (ap
                  (λ b.
                    unpack_one (suc fuel)
                      (combine_type type_long_string 4 ∷ (le_bytes 4 (length s) ++ (b ++ rest))))
                  (append-nil s)
                ∙ unpack_tag fuel type_long_string 4 (le_bytes 4 (length s) ++ (s ++ rest))
                    (omega arith) (omega arith)
                ∙ rw (read_dword (length s) (s ++ rest) (omega arith))
                    (get_buffer-append (length s) s rest refl h))
      ]
]
