-- ===== src/Pipeline/Examples.antt =====
-- Lab7: the theorems at a command line and at the descriptors 3 and 4.
use unx.Prelude.{ℕ, none, some, [], ◌∷◌, ◌≡◌, ◌≢◌, ◌⊎◌, refl, take, true, ltb, if◌then◌else◌, arith}
use unx.Prelude.Bytes.{Bytes, codes}
use unx.Pipeline.{Table, standard, read_end, write_end, pipe, child, parent, arguments}
use unx.Pipeline.Words.{words, arguments-words}
use unx.Pipeline.Startup.{IsPiped, main, main-runs}
use unx.Pipeline.Ends.{ends_joined}

abbrev command : Bytes
command = codes " ls  -l /tmp  more "

three_arguments : arguments command ≡ codes "ls" ∷ codes "-l" ∷ codes "/tmp" ∷ []
unfolding arguments
three_arguments = refl

arguments-words_example : arguments command ≡ take 3 (words command)
arguments-words_example = arguments-words command

abbrev inherited : Table
inherited x = if ltb x 3 then some (standard x) else none

ends_joined_example :
    (child 3 4 (pipe 3 4 inherited) 1 ≡ some write_end)
    × (parent 3 4 (pipe 3 4 inherited) 0 ≡ some read_end)
    × ((x : ℕ)
        → x ≡ 3 ⊎ x ≡ 4
        → (child 3 4 (pipe 3 4 inherited) x ≡ none) × (parent 3 4 (pipe 3 4 inherited) x ≡ none))
    × ((x : ℕ)
        → x ≢ 3
        → x ≢ 4
        → (x ≢ 1 → child 3 4 (pipe 3 4 inherited) x ≡ inherited x)
          × (x ≢ 0 → parent 3 4 (pipe 3 4 inherited) x ≡ inherited x))
ends_joined_example = ends_joined 3 4 inherited (omega arith) (omega arith) (ground arith)

main-runs_example : IsPiped inherited 3 4 (take 3 (words command)) (take 3 (words (codes "more"))) (
    main
      (record { pipefd = some (3, 4); pid = true })
      inherited
      (codes "Lab7" ∷ command ∷ codes "more" ∷ []))
main-runs_example =
    main-runs inherited 3 4 (codes "Lab7") command (codes "more") (omega arith) (omega arith)
      (ground arith) (omega arith) (omega arith)
