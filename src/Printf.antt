-- ===== src/Printf.antt =====
-- kernel/printf.c and user/printf.c, and atoi of user/ulib.c. What is printed is a list of bytes, in the
-- order of the calls of consputc or putc. A format and a string are the bytes before their NUL. `none`
-- stands for an argument that is missing or of another type, where C promises nothing.
pub mod RoundTrip
mod Tests
use fyp_os.Prelude.{
  ℕ, zero, suc, ◌+◌, ◌-◌, ◌*◌, ◌/◌, ◌%◌, ◌^◌, Bool, true, false, ◌&&◌, Option, none, some, List, [],
  ◌∷◌, ◌++◌, get_or, leb, ◌==◌, if◌then◌else◌, ◌>>=◌,
}

-- The digits of the kernel and of the user library.
abbrev pub lower : List ℕ
lower =
    b'0' ∷ b'1' ∷ b'2' ∷ b'3' ∷ b'4' ∷ b'5' ∷ b'6' ∷ b'7' ∷ b'8' ∷ b'9' ∷ b'a' ∷ b'b' ∷ b'c' ∷ b'd'
    ∷ b'e' ∷ b'f' ∷ []

abbrev pub upper : List ℕ
upper =
    b'0' ∷ b'1' ∷ b'2' ∷ b'3' ∷ b'4' ∷ b'5' ∷ b'6' ∷ b'7' ∷ b'8' ∷ b'9' ∷ b'A' ∷ b'B' ∷ b'C' ∷ b'D'
    ∷ b'E' ∷ b'F' ∷ []

-- The loop of `printint` with `k` rounds left. `buf` is the buffer from its last byte to its first, which is
-- the order in which it is printed.
unfoldable pub printint_loop : ℕ → List ℕ → ℕ → ℕ → List ℕ → List ℕ
printint_loop zero digits base x buf = buf
printint_loop (suc k) digits base x buf =
    let buf' = get_or digits (x % base) 0 ∷ buf in
    let rest = printint_loop k digits base (x / base) buf' in if x / base == 0 then buf' else rest

-- `printint` of the 32-bit pattern `xx`, which has at most 32 digits in any base.
unfoldable pub printint : List ℕ → ℕ → ℕ → Bool → List ℕ
printint digits xx base sign =
    let neg = sign && leb (2 ^ 31) xx in
    let x = if neg then 2 ^ 32 - xx else xx in
    let buf = printint_loop 32 digits base x [] in if neg then b'-' ∷ buf else buf

-- The loop of `printptr` with `k` of its 16 rounds left.
unfoldable pub printptr_loop : ℕ → List ℕ → ℕ → List ℕ
printptr_loop zero digits x = []
printptr_loop (suc k) digits x =
    get_or digits (x / 2 ^ 60) 0 ∷ printptr_loop k digits (x * 2 ^ 4 % 2 ^ 64)

unfoldable pub printptr : List ℕ → ℕ → List ℕ
printptr digits x = b'0' ∷ b'x' ∷ printptr_loop 16 digits x

-- The arguments after the format; a string may be 0.
pub data Arg : Type 0 where
  word : ℕ → Arg
  text : Option (List ℕ) → Arg

abbrev pub null_text : List ℕ
null_text = b'(' ∷ b'n' ∷ b'u' ∷ b'l' ∷ b'l' ∷ b')' ∷ []

-- `va_arg` of a number and of a string, and what is printed for it.
abbrev pub with_word : (ℕ → List ℕ) → List Arg → Option (List ℕ × List Arg)
with_word print (word x ∷ args) = some (print x, args)
with_word print (text t ∷ args) = none
with_word print [] = none

abbrev pub with_text : List Arg → Option (List ℕ × List Arg)
with_text (text none ∷ args) = some (null_text, args)
with_text (text (some t) ∷ args) = some (t, args)
with_text (word x ∷ args) = none
with_text [] = none

-- What a conversion prints, and the arguments that are left: in the kernel, and in the user library, where
-- `%l` passes a 64-bit number as an `int`.
unfoldable pub kernel_convert : ℕ → List Arg → Option (List ℕ × List Arg)
kernel_convert c args =
    if c == b'd'
    then with_word (λ x. printint lower (x % 2 ^ 32) 10 true) args
    else if c == b'x'
    then with_word (λ x. printint lower (x % 2 ^ 32) 16 true) args
    else if c == b'p'
    then with_word (printptr lower) args
    else if c == b's'
    then with_text args
    else if c == b'%'
    then some (b'%' ∷ [], args)
    else some (b'%' ∷ c ∷ [], args)

unfoldable pub user_convert : ℕ → List Arg → Option (List ℕ × List Arg)
user_convert c args =
    if c == b'd'
    then with_word (λ x. printint upper (x % 2 ^ 32) 10 true) args
    else if c == b'l'
    then with_word (λ x. printint upper (x % 2 ^ 32) 10 false) args
    else if c == b'x'
    then with_word (λ x. printint upper (x % 2 ^ 32) 16 false) args
    else if c == b'p'
    then with_word (printptr upper) args
    else if c == b's'
    then with_text args
    else if c == b'c'
    then with_word (λ x. x % 2 ^ 8 ∷ []) args
    else if c == b'%'
    then some (c ∷ [], args)
    else some (b'%' ∷ c ∷ [], args)

-- The loop of `printf` of the kernel, which reads the character after a `%` at once.
unfoldable pub printf : List ℕ → List Arg → Option (List ℕ)
printf [] args = some []
printf (c ∷ []) args = if c == b'%' then some [] else some (c ∷ [])
printf (c ∷ d ∷ fmt) args =
    let plain = printf (d ∷ fmt) args >>= λ out. some (c ∷ out) in
    let converted =
      kernel_convert d args >>= λ (out, args'). printf fmt args' >>= λ out'. some (out ++ out') in
    if c == b'%' then converted else plain

-- The loop of `vprintf` of the user library; `percent` is its `state`.
unfoldable pub vprintf : Bool → List ℕ → List Arg → Option (List ℕ)
vprintf percent [] args = some []
vprintf false (c ∷ fmt) args =
    let plain = vprintf false fmt args >>= λ out. some (c ∷ out) in
    let conversion = vprintf true fmt args in if c == b'%' then conversion else plain
vprintf true (c ∷ fmt) args =
    user_convert c args >>= λ (out, args'). vprintf false fmt args' >>= λ out'. some (out ++ out')

-- `atoi`; an `int` that overflows wraps around.
unfoldable pub atoi_loop : ℕ → List ℕ → ℕ
atoi_loop n [] = n
atoi_loop n (c ∷ s) =
    let rest = atoi_loop ((n * 10 + (c - b'0')) % 2 ^ 32) s in
    if leb b'0' c && leb c b'9' then rest else n

unfoldable pub atoi : List ℕ → ℕ
atoi = atoi_loop 0
