-- ===== src/Process/Tests.antt =====
-- Command lines, stacks, executables and families for src/userprog/process.c.
use csed.Common.{ℕ, ◌%◌, ◌≡◌, refl, true, ◌||◌, List, [], ◌∷◌, some, arith, Option, get_or}
use csed.Process.Arguments.{
  argument_parse, UserStack, parse_loop, strtok_r, skip_delimiters, split_token, is_delimiter,
}
use csed.Process.Load.{
  ElfFile, Phdr, Segment, load, validate_segment, segment_of, is_executable, load_phdrs, read_phdr,
  load_phdr,
}
use csed.Process.Segments.{Fits, asserted, segment_of-Fits, load-asserted}
use csed.Process.Family.{
  Child, Parent, Shared, Reach, start, later, by_start, by_cleanup, by_exec, by_wait, by_release,
  release_child, start_process, process_cleanup, sys_exec, process_wait,
}
use csed.Process.Places.{is_done}
use csed.Process.Outcome.{is_leaving, has_exited, Goes, freed_last, process_wait_lem, no_deadlock}

-- "echo  x " with 101 'e', 120 'x'.
abbrev two_words : List (ℕ × List ℕ)
two_words = (0, 101 ∷ 99 ∷ []) ∷ (1, 120 ∷ []) ∷ []

parse_run : argument_parse (101 ∷ 99 ∷ 32 ∷ 32 ∷ 120 ∷ 32 ∷ []) ≡ (101 ∷ 99 ∷ []) ∷ (120 ∷ []) ∷ []
unfolding argument_parse parse_loop strtok_r skip_delimiters split_token is_delimiter
parse_run = refl

abbrev top : UserStack
top = record { sp = 3221225472; byte = λ a. 0 }

-- A text segment at 0x8048000 with 5000 bytes from the file and 1000 bytes of zeros.
abbrev text : Phdr
text = record {
  p_type = 1;
  p_offset = 16;
  p_vaddr = 134512656;
  p_filesz = 5000;
  p_memsz = 6000;
  p_flags = 6;
}

text_valid : validate_segment text 8000 ≡ true
unfolding validate_segment
text_valid = refl

segment_of-Fits_example : Fits text (segment_of text)
segment_of-Fits_example =
    segment_of-Fits text 8000
      (record { offset = omega arith; vaddr = omega arith; memsz = omega arith }) text_valid

-- An executable with that segment: its headers, and zeros.
abbrev headers : List ℕ
headers =
    127 ∷ 69 ∷ 76 ∷ 70 ∷ 1 ∷ 1 ∷ 1 ∷ 0 ∷ 0 ∷ 0 ∷ 0 ∷ 0 ∷ 0 ∷ 0 ∷ 0 ∷ 0 ∷ 2 ∷ 0 ∷ 3 ∷ 0 ∷ 1 ∷ 0 ∷ 0
    ∷ 0 ∷ 0 ∷ 128 ∷ 4 ∷ 8 ∷ 52 ∷ 0 ∷ 0 ∷ 0 ∷ 0 ∷ 0 ∷ 0 ∷ 0 ∷ 0 ∷ 0 ∷ 0 ∷ 0 ∷ 52 ∷ 0 ∷ 32 ∷ 0 ∷ 1 ∷ 0
    ∷ 0 ∷ 0 ∷ 0 ∷ 0 ∷ 0 ∷ 0 ∷ 1 ∷ 0 ∷ 0 ∷ 0 ∷ 16 ∷ 0 ∷ 0 ∷ 0 ∷ 16 ∷ 128 ∷ 4 ∷ 8 ∷ 0 ∷ 0 ∷ 0 ∷ 0
    ∷ 136 ∷ 19 ∷ 0 ∷ 0 ∷ 112 ∷ 23 ∷ 0 ∷ 0 ∷ 6 ∷ 0 ∷ 0 ∷ 0 ∷ 0 ∷ 16 ∷ 0 ∷ 0 ∷ []

abbrev executable : ElfFile
executable = record { length = 8000; byte = λ a. get_or headers a 0 % 256 }

abbrev collect : Segment → List Segment → Option (List Segment)
collect g s = some (g ∷ s)

load-asserted_example : load (asserted collect) executable [] ≡ load collect executable []
load-asserted_example = load-asserted collect executable [] (λ a. omega arith)

load_run : load collect executable [] ≡ some (segment_of text ∷ [], 134512640)
unfolding load is_executable load_phdrs read_phdr load_phdr validate_segment
load_run = refl

-- The child loads, runs and exits with 7 while the parent waits.
abbrev shared : ℕ → ℕ → ℕ → ℕ → Shared
shared load status wait zombie = record {
  load_sema = load;
  load_success = true;
  exit_status = status;
  wait_sema = wait;
  zombie_sema = zombie;
}

waiting_parent : Reach true Child.running Parent.waiting (shared 0 0 0 0)
unfolding start_process sys_exec process_wait
waiting_parent =
    later
      (later
        (later
          (later (later (later start (by_start true refl)) (by_start true refl)) (by_exec refl))
          (by_exec refl))
        (by_exec refl))
      (by_wait refl)

reaped_child : Reach true Child.exited (Parent.reaped 7) (shared 0 7 0 0)
unfolding process_cleanup process_wait
reaped_child =
    later
      (later
        (later
          (later (later (later waiting_parent (by_cleanup 7 refl)) (by_cleanup 0 refl))
            (by_wait refl))
          (by_wait refl))
        (by_wait refl))
      (by_cleanup 0 refl)

process_wait_example :
    (has_exited Child.exited ≡ true)
    × ((shared 0 7 0 0).load_success ≡ true)
    × ((shared 0 7 0 0).exit_status ≡ 7)
process_wait_example = process_wait_lem Child.exited 7 (shared 0 7 0 0) reaped_child

freed_last_example : (is_done (Parent.reaped 7) || is_leaving (Parent.reaped 7)) ≡ true
freed_last_example = freed_last Child.exited (Parent.reaped 7) (shared 0 7 0 0) reaped_child refl

no_deadlock_example : Goes Child.running Parent.waiting (shared 0 0 0 0)
no_deadlock_example = no_deadlock Child.running Parent.waiting (shared 0 0 0 0) waiting_parent

-- The parent exits, and the child is freed while the parent is still at its child_elem.
running_child : Reach true Child.running Parent.executed (shared 0 0 0 0)
unfolding start_process sys_exec
running_child =
    later
      (later (later (later (later start (by_start true refl)) (by_start true refl)) (by_exec refl))
        (by_exec refl))
      (by_exec refl)

freed_early : Reach true Child.exited Parent.leaving (shared 0 7 1 0)
unfolding process_cleanup release_child
freed_early =
    later
      (later (later (later running_child (by_cleanup 7 refl)) (by_cleanup 0 refl))
        (by_release refl))
      (by_cleanup 0 refl)
