-- ===== src/Mmap/Examples.antt =====
-- The questions of ps5/main.c on a file that is a function, and their answers there.
use ece.Base.{ℕ, ◌≡◌, true, false}
use ece.Mmap.Questions.{Result, signal, ok, sizes, still_there}
use ece.Mmap.Behind.{behind_end}
use ece.Mmap.Disk.{Disk, disk, disk-IsPosix, disk-NoFailure}
use ece.Mmap.Calls.{shared}
use ece.Mmap.Main.{Answer, visible, byte, main, main_answers}
use ece.Base.{none, [], ◌∷◌}

abbrev blank : Disk
blank = record { data_of = λ j. 0; length_of = 0; at = 0; view = λ j. none; how = shared }

abbrev random : ℕ → ℕ
random i = i

behind_end_example :
    ((t : Disk) × (sizes disk random blank ≡ ok ((4100, 4100), t)))
    × (t : Disk) × (still_there disk random blank ≡ ok (true, t))
    × (t.length_of ≡ 4100)
behind_end_example = behind_end disk disk-IsPosix disk-NoFailure random blank

main_answers_example :
    let run : ℕ → Result (Answer × Disk) = λ c. main disk random 0 ((c ∷ []) ∷ []) blank in
    (run b'A' ≡ signal)
    × ((t : Disk) × (run b'B' ≡ ok (visible true, t)))
    × ((t : Disk) × (run b'C' ≡ ok (visible false, t)))
    × ((t : Disk) × (run b'F' ≡ ok (byte 0, t)))
main_answers_example = main_answers disk disk-IsPosix disk-NoFailure random 0 [] [] blank
