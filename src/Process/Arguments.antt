-- ===== src/Process/Arguments.antt =====
-- argument_parse and argument_push in src/userprog/process.c, with strtok_r of src/lib/string.c. A
-- pointer into a string stands for the characters from it on to the '\0', which is not in the list.
-- `byte` is the memory of the stack, by addresses.
use csed.Common.{
  ℕ, zero, suc, ◌+◌, ◌-◌, ◌/◌, ◌%◌, ◌^◌, Bool, true, false, ◌&&◌, ◌==◌, ltb, leb, List, [], ◌∷◌,
  ◌++◌, Option, none, some, get_or, length, if◌then◌else◌, check, ◌>>◌,
}

-- `strchr (delimiters, c) != NULL`, of a character that is not '\0'.
unfoldable pub is_delimiter : List ℕ → ℕ → Bool
is_delimiter [] c = false
is_delimiter (d ∷ delimiters) c =
    let rest = is_delimiter delimiters c in if d == c then true else rest

unfoldable pub skip_delimiters : List ℕ → List ℕ → List ℕ
skip_delimiters delimiters [] = []
skip_delimiters delimiters (c ∷ s) =
    let rest = skip_delimiters delimiters s in if is_delimiter delimiters c then rest else c ∷ s

-- The token up to a delimiter, and the position to go on at, behind the '\0' that takes its place.
unfoldable pub split_token : List ℕ → List ℕ → List ℕ × List ℕ
split_token delimiters [] = ([], [])
split_token delimiters (c ∷ s) =
    let (token, rest) = split_token delimiters s in
    if is_delimiter delimiters c then ([], s) else (c ∷ token, rest)

-- strtok_r from a position: the token and `*save_ptr`; `none` is NULL.
unfoldable pub strtok_r : List ℕ → List ℕ → Option (List ℕ × List ℕ)
strtok_r delimiters s = elim (skip_delimiters delimiters s) [
  | [] ↦ none
  | c ∷ rest ↦ some (split_token delimiters (c ∷ rest))
]

-- The loop of argument_parse, for some rounds: the tokens that it puts into argv.
unfoldable pub parse_loop : ℕ → List ℕ → List (List ℕ)
parse_loop zero s = []
parse_loop (suc rounds) s = elim (strtok_r (32 ∷ []) s) [
  | none ↦ []
  | some r ↦ r.0 ∷ parse_loop rounds r.1
]

unfoldable pub argument_parse : List ℕ → List (List ℕ)
argument_parse cmd_line = parse_loop (suc (length cmd_line)) cmd_line

-- A pointer moves down, in 32 bits.
abbrev pub down : ℕ → ℕ → ℕ
down sp n = (sp + 2 ^ 32 - n) % 2 ^ 32

-- Bytes and a 32-bit word written at an address.
abbrev pub put_bytes : ℕ → List ℕ → (ℕ → ℕ) → ℕ → ℕ
put_bytes p bs byte a = if leb p a && ltb a (p + length bs) then get_or bs (a - p) 0 else byte a

abbrev pub word_bytes : ℕ → List ℕ
word_bytes w = w % 256 ∷ w / 256 % 256 ∷ w / 65536 % 256 ∷ w / 16777216 % 256 ∷ []

-- The stack pointer and the memory.
pub record UserStack : Type 0 where
  pub sp : ℕ
  pub byte : ℕ → ℕ

-- `sp -= n; *sp = bs`
unfoldable pub push : List ℕ → UserStack → UserStack
push bs stack =
    let sp' = down stack.sp (length bs) in record { sp = sp'; byte = put_bytes sp' bs stack.byte }

-- Step 1: the strings from the last one on, and their addresses.
unfoldable pub push_strings : List (List ℕ) → UserStack → List ℕ × UserStack
push_strings [] stack = ([], stack)
push_strings (arg ∷ argv) stack =
    let (addresses, below) = push_strings argv stack in
    let stack' = push (arg ++ 0 ∷ []) below in (stack'.sp ∷ addresses, stack')

-- Step 2, for some rounds.
unfoldable pub word_align : ℕ → UserStack → UserStack
word_align zero stack = stack
word_align (suc rounds) stack =
    let rest = word_align rounds (push (0 ∷ []) stack) in if stack.sp % 4 == 0 then stack else rest

-- Step 3: NULL and the addresses from the last one on.
unfoldable pub push_addresses : List ℕ → UserStack → UserStack
push_addresses [] stack = push (word_bytes 0) stack
push_addresses (a ∷ addresses) stack = push (word_bytes a) (push_addresses addresses stack)

-- Four rounds are enough for step 2. Steps 4 and 5 are the last three words.
unfoldable pub push_arguments : List (List ℕ) → UserStack → UserStack
push_arguments argv stack =
    let (addresses, strings) = push_strings argv stack in
    let addressed = push_addresses addresses (word_align 4 strings) in
    let with_argv = push (word_bytes addressed.sp) addressed in
    push (word_bytes 0) (push (word_bytes (length argv)) with_argv)

-- `page` says whether palloc_get_page finds a page for argv_addresses, which has room for 1024
-- addresses with the NULL at their end. `none` is the failed assertion, or a write behind that page.
unfoldable pub argument_push : Bool → List (List ℕ) → UserStack → Option UserStack
argument_push page argv stack = do
  check page
  check (ltb (length argv) 1024)
  some (push_arguments argv stack)
