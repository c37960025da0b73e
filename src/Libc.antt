-- ===== src/Libc.antt =====
-- Template/include/v/string.c: the memory and string routines of the test environment, for RV64
-- (`sizeof(uintptr_t)` is 8, bytes are little-endian, `char` is unsigned). Memory is a function
-- from addresses to bytes. Each loop takes fuel, `none` means that it ran out.
pub mod Bytes
pub mod Copied
pub mod Text
pub mod Copy
pub mod Decimal
pub mod Compare
pub mod Strings
pub mod Fill
use processorfuzz.Base.{ℕ, zero, suc, ◌+◌, ◌-◌, ◌*◌, ◌/◌, ◌%◌, ◌^◌, bit_and, bit_or}
use processorfuzz.Base.{Bool, true, false, not, ◌&&◌, ◌||◌, Option, none, some}
use processorfuzz.Base.{ltb, ◌==◌, if◌then◌else◌}
use processorfuzz.Libc.Bytes.{Memory, store, load64, store64, u64}
use processorfuzz.Libc.Bytes.{ℤ, diff}
use mathlib.Core.Option

-- The two loops of `memcpy`, over words and over bytes.
pub copy_words : ℕ → Memory → ℕ → ℕ → ℕ → Option Memory
copy_words zero m d s end = none
copy_words (suc fuel) m d s end =
    let rest = copy_words fuel (store64 m d (load64 m s)) (d + 8) (s + 8) end in
    if ltb d end then rest else some m

pub copy_bytes : ℕ → Memory → ℕ → ℕ → ℕ → Option Memory
copy_bytes zero m d s end = none
copy_bytes (suc fuel) m d s end =
    let rest = copy_bytes fuel (store m d (m s)) (d + 1) (s + 1) end in
    if ltb d end then rest else some m

unfoldable pub memcpy : ℕ → Memory → ℕ → ℕ → ℕ → Option (Memory × ℕ)
unfolding copy_words copy_bytes
memcpy fuel m dest src len =
    if bit_and (bit_or (bit_or dest src) len) 7 == 0
    then Option.map (λ m'. (m', dest)) (copy_words fuel m dest src (dest + len))
    else Option.map (λ m'. (m', dest)) (copy_bytes fuel m dest src (dest + len))

-- `byte` is the bit pattern of the `int` argument.
pub fill_word : ℕ → ℕ
fill_word byte =
    let word = bit_and byte 0xff in
    let word = bit_or word (u64 (word * 2 ^ 8)) in
    let word = bit_or word (u64 (word * 2 ^ 16)) in bit_or word (u64 (u64 (word * 2 ^ 16) * 2 ^ 16))

pub fill_words : ℕ → Memory → ℕ → ℕ → ℕ → Option Memory
fill_words zero m word d end = none
fill_words (suc fuel) m word d end =
    let rest = fill_words fuel (store64 m d word) word (d + 8) end in
    if ltb d end then rest else some m

pub fill_bytes : ℕ → Memory → ℕ → ℕ → ℕ → Option Memory
fill_bytes zero m byte d end = none
fill_bytes (suc fuel) m byte d end =
    let rest = fill_bytes fuel (store m d (byte % 2 ^ 8)) byte (d + 1) end in
    if ltb d end then rest else some m

unfoldable pub memset : ℕ → Memory → ℕ → ℕ → ℕ → Option (Memory × ℕ)
unfolding fill_word fill_words fill_bytes
memset fuel m dest byte len =
    if bit_and (bit_or dest len) 7 == 0
    then Option.map (λ m'. (m', dest)) (fill_words fuel m (fill_word byte) dest (dest + len))
    else Option.map (λ m'. (m', dest)) (fill_bytes fuel m byte dest (dest + len))

pub scan : ℕ → Memory → ℕ → Option ℕ
scan zero m p = none
scan (suc fuel) m p = let rest = scan fuel m (p + 1) in if m p == 0 then some p else rest

unfoldable pub strlen : ℕ → Memory → ℕ → Option ℕ
unfolding scan
strlen fuel m s = Option.map (λ p. p - s) (scan fuel m s)

unfoldable pub strcmp : ℕ → Memory → ℕ → ℕ → Option ℤ
strcmp zero m s1 s2 = none
strcmp (suc fuel) m s1 s2 =
    let c1 = m s1 in
    let c2 = m s2 in
    let rest = strcmp fuel m (s1 + 1) (s2 + 1) in
    if not (c1 == 0) && c1 == c2 then rest else some (diff c1 c2)

-- The word loop of `memcmp`: how many words match before a difference or the end.
pub same_words : ℕ → Memory → ℕ → ℕ → ℕ → Option (ℕ × ℕ)
same_words zero m u1 u2 end = none
same_words (suc fuel) m u1 u2 end =
    let rest = same_words fuel m (u1 + 8) (u2 + 8) end in
    if ltb u1 end
    then (if load64 m u1 == load64 m u2 then rest else some (u1, u2))
    else some (u1, u2)

-- `while (n--)`: recursion on the count.
pub compare_bytes : Memory → ℕ → ℕ → ℕ → ℤ
compare_bytes m s1 s2 zero = diff 0 0
compare_bytes m s1 s2 (suc n) =
    let rest = compare_bytes m (s1 + 1) (s2 + 1) n in
    if m s1 == m s2 then rest else diff (m s1) (m s2)

unfoldable pub memcmp : ℕ → Memory → ℕ → ℕ → ℕ → Option ℤ
unfolding same_words compare_bytes
memcmp fuel m s1 s2 n =
    if bit_and (bit_or s1 s2) 7 == 0
    then Option.map (λ (u1, u2). compare_bytes m u1 u2 (n - (u1 - s1)))
        (same_words fuel m s1 s2 (s1 + 8 * (n / 8)))
    else some (compare_bytes m s1 s2 n)

pub copy_string : ℕ → Memory → ℕ → ℕ → Option Memory
copy_string zero m d s = none
copy_string (suc fuel) m d s =
    let m' = store m d (m s) in
    let rest = copy_string fuel m' (d + 1) (s + 1) in if not (m s == 0) then rest else some m'

unfoldable pub strcpy : ℕ → Memory → ℕ → ℕ → Option (Memory × ℕ)
unfolding copy_string
strcpy fuel m dest src = Option.map (λ m'. (m', dest)) (copy_string fuel m dest src)

pub skip_spaces : ℕ → Memory → ℕ → Option ℕ
skip_spaces zero m str = none
skip_spaces (suc fuel) m str =
    let rest = skip_spaces fuel m (str + 1) in if m str == b' ' then rest else some str

-- `res *= 10; res += *str++ - '0';` on the 64-bit pattern of `res`.
pub add_digit : ℕ → ℕ → ℕ
add_digit res c = u64 (u64 (res * 10) + (c + 2 ^ 64 - b'0'))

pub read_digits : ℕ → Memory → ℕ → ℕ → Option ℕ
unfolding add_digit
read_digits zero m str res = none
read_digits (suc fuel) m str res =
    let rest = read_digits fuel m (str + 1) (add_digit res (m str)) in
    if not (m str == 0) then rest else some res

-- What `atol` does once the spaces are skipped.
pub read_signed : ℕ → Memory → ℕ → Option ℕ
unfolding read_digits
read_signed fuel m str =
    if m str == b'-'
    then Option.map (λ res. u64 (2 ^ 64 - res)) (read_digits fuel m (str + 1) 0)
    else if m str == b'+'
    then read_digits fuel m (str + 1) 0
    else read_digits fuel m str 0

-- The result is the bit pattern of the `long`.
unfoldable pub atol : ℕ → Memory → ℕ → Option ℕ
unfolding skip_spaces read_signed Option.bind
atol fuel m str = Option.bind (skip_spaces fuel m str) (read_signed fuel m)
