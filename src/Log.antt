-- ===== src/Log.antt =====
-- The kernel log of kernel/log.c: its formatter; the child Ring has the entries. Characters are their codes.
use aeos.Base.{
  ℤ, Option, List, ℕ, Bool, ◌+◌, ◌-◌, if◌then◌else◌, ◌∷◌, [], ◌++◌, ltb, ◌==◌, ◌||◌, length, suc,
  pos, some, ◌/◌, negsuc, ◌%◌, zero, none,
}
pub mod Bounds
pub mod Ring
pub mod Turn
pub mod Recent
pub mod Tests

-- What a `va_arg` can take.
pub data Arg : Type 0 where
  int_arg : ℤ → Arg
  unsigned_arg : ℕ → Arg
  string_arg : Option (List ℕ) → Arg

-- The digits of a value, at most as many as the loop's bound, before those already there.
pub digits : ℕ → (ℕ → ℕ) → ℕ → ℕ → List ℕ → List ℕ
digits base symbol zero val acc = acc
digits base symbol (suc n) val acc =
    let rest = digits base symbol n (val / base) (symbol (val % base) ∷ acc) in
    if val == 0 then acc else rest

abbrev pub decimal : ℕ → ℕ
decimal d = 48 + d

-- `hex[val & 0xF]`, whose letters start at `a` or `A`
abbrev pub hex : ℕ → ℕ → ℕ
hex letter d = if ltb d 10 then 48 + d else letter + (d - 10)

abbrev pub number : ℕ → (ℕ → ℕ) → ℕ → ℕ → List ℕ
number base symbol bound val = if val == 0 then 48 ∷ [] else digits base symbol bound val []

-- `%d`; the negation of the least `int` overflows in C and is not followed.
abbrev pub signed : ℤ → List ℕ
signed (pos n) = number 10 decimal 10 n
signed (negsuc n) = 45 ∷ number 10 decimal 10 (suc n)

-- `"(null)"`
abbrev pub null_text : List ℕ
null_text = 40 ∷ 110 ∷ 117 ∷ 108 ∷ 108 ∷ 41 ∷ []

abbrev pub text : Option (List ℕ) → List ℕ
text none = null_text
text (some s) = s

-- `(char)` of an `int`
abbrev pub char_of : ℤ → ℕ
char_of (pos n) = n % 256
char_of (negsuc n) = 255 - n % 256

-- What one conversion prints. An argument of another type than the conversion's is undefined in C; it prints nothing here.
abbrev pub shown : ℕ → Arg → List ℕ
shown c (int_arg v) =
    if c == 100 || c == 105 then signed v else if c == 99 then char_of v ∷ [] else []
shown c (unsigned_arg v) =
    if c == 117
    then number 10 decimal 10 v
    else if c == 120
    then number 16 (hex 97) 8 v
    else if c == 88
    then number 16 (hex 65) 8 v
    else []
shown c (string_arg s) = if c == 115 then text s else []

-- The conversions that take an argument: d i u x X s c
abbrev pub takes_arg : ℕ → Bool
takes_arg c =
    c == 100 || (c == 105 || (c == 117 || (c == 120 || (c == 88 || (c == 115 || c == 99)))))

-- `while (… && pos < bufsize - 1) buf[pos++] = …`, where `out` is what stands in the buffer.
pub emit : ℕ → List ℕ → List ℕ → List ℕ
emit limit out [] = out
emit limit out (c ∷ cs) =
    let rest = emit limit (out ++ (c ∷ [])) cs in if ltb (length out) limit then rest else out

abbrev pub convert : ℕ → ℕ → List Arg → List ℕ → List ℕ
convert limit c [] out = if c == 37 then emit limit out (37 ∷ []) else out
convert limit c (a ∷ args) out =
    if takes_arg c
    then emit limit out (shown c a)
    else if c == 37
    then emit limit out (37 ∷ [])
    else out

abbrev pub args_after : ℕ → List Arg → List Arg
args_after c [] = []
args_after c (a ∷ args) = if takes_arg c then args else a ∷ args

-- The loop of `vsnprintf_simple`, with `limit` for `bufsize - 1`. A `%` at the end makes the C code read past the format; the model stops there.
pub format : ℕ → List ℕ → List Arg → List ℕ → List ℕ
format limit [] args out = out
format limit (c ∷ []) args out =
    if ltb (length out) limit then (if c == 37 then out else out ++ (c ∷ [])) else out
format limit (c ∷ d ∷ fmt) args out =
    let converted = format limit fmt (args_after d args) (convert limit d args out) in
    let copied = format limit (d ∷ fmt) args (out ++ (c ∷ [])) in
    if ltb (length out) limit then (if c == 37 then converted else copied) else out

-- `vsnprintf_simple` into `bufsize` bytes: what it leaves before the final NUL
pub vsnprintf : ℕ → List ℕ → List Arg → List ℕ
unfolding format
vsnprintf bufsize fmt args = format (bufsize - 1) fmt args []
