-- ===== src/Tests/Rows.antt =====
-- A thread's row and back.
use atelier_code.Shared.{
  ℕ, zero, suc, String, ◌≡◌, refl, Option, some, String-discrete, differ, if◌then◌else◌,
}
use atelier_code.Threads.Record.{ThreadRecord}
use atelier_code.Threads.Columns.{thread_row, thread_from}
use atelier_code.Threads.Columns.RoundTrip.{IsWritable, thread_from-row}
use atelier_code.Tests.Samples.{working_thread, submission}

-- A layout that writes the first times.
unfoldable written : ℕ → String
written zero = "0"
written (suc zero) = "1"
written (suc (suc zero)) = "2"
written (suc (suc (suc zero))) = "3"
written _ = "4"

unfoldable read : String → Option ℕ
read s =
    if differ String-discrete s "0"
    then if differ String-discrete s "1"
      then if differ String-discrete s "2"
        then if differ String-discrete s "3" then some 4 else some 3
        else some 2
      else some 1
    else some 0

abbrev waiting_thread : ThreadRecord
waiting_thread = record working_thread { pending = some submission }

waiting_thread-IsWritable : IsWritable written read waiting_thread
unfolding written read String-discrete
waiting_thread-IsWritable = record {
  created = (refl, refl);
  updated = (refl, refl);
  evidence = (refl, refl);
  archived = tt;
  turn = (refl, (refl, refl), tt);
  pending = (refl, (refl, refl));
}

thread_from-row_example : thread_from read (thread_row written waiting_thread) ≡ some waiting_thread
thread_from-row_example = thread_from-row written read waiting_thread waiting_thread-IsWritable
