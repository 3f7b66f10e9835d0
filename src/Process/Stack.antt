-- ===== src/Process/Stack.antt =====
-- argument_push in src/userprog/process.c: the stack that a program starts with.
use csed.Common.{ℕ, ◌+◌, ◌*◌, ◌%◌, ◌≤◌, ◌<◌, ◌≡◌, List, [], ◌∷◌, ◌++◌, get_or, length}
use csed.Process.Arguments.{UserStack, word_bytes}
use csed.Process.Pushes.{Holds, strings_size}

-- The stack that `main` finds: the return address, argc, argv, the array of the addresses of the
-- arguments with NULL at its end, and the arguments with '\0' at their ends.
pub record Started (argv : List (List ℕ)) (st st' : UserStack) : Type 0 where
  pub aligned : st'.sp % 4 ≡ 0
  pub below : st'.sp ≤ st.sp
  pub size : st.sp ≤ st'.sp + strings_size argv + 3 + 4 * (length argv + 4)
  pub kept : (a : ℕ) → st.sp ≤ a → st'.byte a ≡ st.byte a
  pub return_address : Holds st'.byte st'.sp (word_bytes 0)
  pub argc : Holds st'.byte (st'.sp + 4) (word_bytes (length argv))
  pub argv_pointer : Holds st'.byte (st'.sp + 8) (word_bytes (st'.sp + 12))
  pub addresses : List ℕ
  pub entries :
      (i : ℕ)
      → i ≤ length argv
      → Holds st'.byte (st'.sp + 12 + 4 * i) (word_bytes (get_or addresses i 0))
  pub count : length addresses ≡ length argv
  pub strings :
      (i : ℕ) → i < length argv → Holds st'.byte (get_or addresses i 0) (get_or argv i [] ++ 0 ∷ [])
