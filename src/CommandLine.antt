-- ===== src/CommandLine.antt =====
-- The command lines of the four coding programs: what their option parsers share. A text is the list
-- of its bytes without the final zero; what the parsers take from the C library is the record Libc.
pub mod RqHostArgs
pub mod RqHostSafe
pub mod RsHostArgs
pub mod RsHostSafe
pub mod RsReceiverArgs
pub mod RsReceiverSafe
pub mod RqReceiverArgs
pub mod RqReceiverSafe
pub mod RqHostMain
mod Tests
use openmc.Common.{
  ℕ, ◌+◌, ◌-◌, ◌*◌, ◌%◌, ◌^◌, ◌≤◌, ◌<◌, ◌≡◌, refl, subst, Bool, true, false, ◌||◌, ◌&&◌, not,
  Option, none, some, List, [], ◌∷◌, ltb, leb, ◌==◌, if◌then◌else◌, length, arith,
}
use Prim.Native.Char.{code}
use Prim.Native.String.{String}

-- The bytes of a text in ASCII.
abbrev pub codes : String → List ℕ
codes String.[] = []
codes (String.◌∷◌ c s) = code c ∷ codes s

-- `strcmp(a, b) == 0`
abbrev pub same_text : List ℕ → List ℕ → Bool
same_text [] [] = true
same_text (x ∷ xs) (y ∷ ys) = (x == y) && same_text xs ys
same_text _ _ = false

abbrev pub is_empty : List ℕ → Bool
is_empty [] = true
is_empty (c ∷ s) = false

-- `arg[0] != '-'`
abbrev pub is_positional : List ℕ → Bool
is_positional [] = true
is_positional (c ∷ s) = not (c == 45)

-- What `strtoul` gives: its value, whether it set `errno`, and whether it read the whole text.
pub record Number : Type 0 where
  pub value : ℕ
  pub range_error : Bool
  pub all_read : Bool

-- The C library: sizes of its headers, `strtoul` by base, whether `inet_pton` takes an IPv4 address,
-- and the index of a network interface, 0 if there is none.
pub record Libc : Type 0 where
  pub ifnamsiz : ℕ
  pub inet_addrstrlen : ℕ
  pub path_max : ℕ
  pub strtoul : ℕ → List ℕ → Number
  pub inet_pton : List ℕ → Bool
  pub if_nametoindex : List ℕ → ℕ

-- The sizes of the headers of Linux.
pub record IsLinux (libc : Libc) : Type 0 where
  pub ifnamsiz_is : libc.ifnamsiz ≡ 16
  pub inet_addrstrlen_is : libc.inet_addrstrlen ≡ 16
  pub path_max_is : libc.path_max ≡ 4096

-- What `getopt_long` gives for a list of arguments: the options in turn, each with its argument, and
-- whether arguments are left behind them.
pub record Getopt (O : Type 0) : Type 0 where
  pub options : List (O × List ℕ)
  pub left : Bool

-- `return 0` with the configuration, `return -1`, and the two exits that print.
pub data Outcome (C : Type 0) : Type 0 where
  accepted : C → Outcome C
  rejected printed_help printed_version : Outcome C

infixl 5 ◌>>=◌
abbrev pub ◌>>=◌ : {C D : Type 0} → Outcome C → (C → Outcome D) → Outcome D
accepted c >>= f = f c
rejected >>= f = rejected
printed_help >>= f = printed_help
printed_version >>= f = printed_version

-- An option's value goes into the configuration, or the command line is refused.
abbrev pub store : {A C : Type 0} → Option A → (A → C) → Outcome C
store none f = rejected
store (some a) f = accepted (f a)

unfoldable pub parse_u16 : Libc → List ℕ → ℕ → ℕ → Option ℕ
parse_u16 libc text min_value max_value =
    let v = libc.strtoul 10 text in
    if v.range_error
      || (is_empty text || (not v.all_read || (ltb v.value min_value || ltb max_value v.value)))
    then none
    else some (v.value % 2 ^ 16)

-- A text that fits with its final zero; a null pointer does not.
unfoldable pub copy_option : ℕ → Option (List ℕ) → Option (List ℕ)
copy_option dst_size none = none
copy_option dst_size (some src) = if leb dst_size (length src) then none else some src

-- Nothing but an accepted configuration has to satisfy `P`.
abbrev pub Holds : {C : Type 0} → (C → Type 0) → Outcome C → Type 0
Holds P (accepted c) = P c
Holds P rejected = Unit
Holds P printed_help = Unit
Holds P printed_version = Unit

pub bind-Holds :
    {C D : Type 0} (P : C → Type 0) (Q : D → Type 0) (o : Outcome C) (f : C → Outcome D)
    → Holds P o
    → ((c : C) → P c → Holds Q (f c))
    → Holds Q (o >>= f)
bind-Holds P Q (accepted c) f p q = q c p
bind-Holds P Q rejected f p q = p
bind-Holds P Q printed_help f p q = p
bind-Holds P Q printed_version f p q = p

pub store-Holds :
    {A C : Type 0} (P : C → Type 0) (o : Option A) (f : A → C)
    → ((a : A) → o ≡ some a → P (f a))
    → Holds P (store o f)
store-Holds P none f h = tt
store-Holds P (some a) f h = h a refl

pub if-Holds :
    {C : Type 0} (P : C → Type 0) (b : Bool) (x y : Outcome C)
    → Holds P x
    → Holds P y
    → Holds P (if b then x else y)
if-Holds P true x y p q = p
if-Holds P false x y p q = q

-- What is known of an outcome that is an accepted configuration.
pub accepted-Holds :
    {C : Type 0} (P : C → Type 0) (o : Outcome C) (c : C) → o ≡ accepted c → Holds P o → P c
accepted-Holds P o c e h = subst (Holds P) e h

pub parse_u16-bounds :
    (libc : Libc) (text : List ℕ) (min_value max_value n : ℕ)
    → max_value < 2 ^ 16
    → parse_u16 libc text min_value max_value ≡ some n
    → (min_value ≤ n) × (n ≤ max_value)
unfolding parse_u16
parse_u16-bounds libc text min_value max_value n lt e = ground (arith, e, lt)

pub copy_option-fits :
    (dst_size : ℕ) (src : Option (List ℕ)) (text : List ℕ)
    → copy_option dst_size src ≡ some text
    → length text < dst_size
unfolding copy_option
copy_option-fits dst_size none text e = ground (arith, e)
copy_option-fits dst_size (some src) text e = ground (arith, e)

-- An option whose value is a text, or a number in a range.
pub text-Holds :
    {C : Type 0} (P : C → Type 0) (dst_size : ℕ) (arg : List ℕ) (f : List ℕ → C)
    → ((text : List ℕ) → length text < dst_size → P (f text))
    → Holds P (store (copy_option dst_size (some arg)) f)
text-Holds P dst_size arg f h =
    store-Holds P (copy_option dst_size (some arg)) f
      (λ text e. h text (copy_option-fits dst_size (some arg) text e))

pub number-Holds :
    {C : Type 0} (P : C → Type 0) (libc : Libc) (arg : List ℕ) (min_value max_value : ℕ) (f : ℕ → C)
    → max_value < 2 ^ 16
    → ((n : ℕ) → min_value ≤ n → n ≤ max_value → P (f n))
    → Holds P (store (parse_u16 libc arg min_value max_value) f)
number-Holds P libc arg min_value max_value f lt h =
    store-Holds P (parse_u16 libc arg min_value max_value) f
      (λ n e. let b = parse_u16-bounds libc arg min_value max_value n lt e in h n b.0 b.1)
