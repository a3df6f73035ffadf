-- ===== src/Buffer/Tests.antt =====
-- Runs of the buffer at concrete inputs.
use eureka.Common.{
  ◌>>=◌, ◌≢◌, ◌≡◌, refl, ok, err, check_failed, List, [], ◌∷◌, ◌++◌, arith, replicate,
}
use eureka.Buffer.Words.{little, big, to_wire, of_wire}
use eureka.Buffer.{
  Buffer, new, write, consume, prepend, read_as_int, read_as_string, write_int, reserve_writable,
  read_all_as_string,
}
use eureka.Buffer.Contents.{IsValid, contents, new-IsValid}
use eureka.Buffer.Operations.{Gives, Prepended, prepend_lem, write_lem, Wrote}
use eureka.Buffer.Fifo.{
  Op, writes, writes_int, consumes, reads, reads_int, reads_all, run, run_spec, run-eq-run_spec,
  read_as_int-to_wire, bytes, number, silent, call,
}
use eureka.Buffer.ReadFd.{Received, read_fd_lem}
use eureka.Buffer.Iterator.{Iterator, plus, minus, greater, less, minus-plus-greater}
use eureka.Common.Int.{pos, negsuc, ltb_ℤ}

program : Unit {0}
unfolding new write consume prepend read_as_int reserve_writable to_wire of_wire write_int call run
    read_as_string read_all_as_string
program = tt

-- Two slots of room: the second write moves the contents to the front, the third grows the block.
abbrev session : List Op
session =
    writes (1 ∷ 2 ∷ 3 ∷ [])
    ∷ consumes 2
    ∷ writes (4 ∷ 5 ∷ [])
    ∷ writes_int 2 0x0607
    ∷ reads 2
    ∷ reads_int 2
    ∷ reads_all
    ∷ []

session_runs :
    run little (new 4) session
    ≡ ok (
        silent
        ∷ silent
        ∷ silent
        ∷ silent
        ∷ bytes (3 ∷ 4 ∷ [])
        ∷ number 0x0506
        ∷ bytes (7 ∷ [])
        ∷ [])
unfolding program
session_runs = refl

reads_too_much : run big (new 4) (writes (1 ∷ []) ∷ reads_int 4 ∷ []) ≡ err check_failed
unfolding program
reads_too_much = refl

run-eq-run_spec_example : run little (new 4) session ≡ run_spec little (contents (new 4)) session
run-eq-run_spec_example = run-eq-run_spec little (new 4) session (new-IsValid 4)

abbrev received : Buffer
received = record {
  buf = replicate 8 0 ++ 0x12 ∷ 0x34 ∷ 7 ∷ [];
  reader_index = 8;
  writer_index = 11;
}

received-IsValid : IsValid received
received-IsValid = omega arith

received_wire : contents received ≡ to_wire little 2 0x1234 ++ 7 ∷ []
unfolding program
received_wire = refl

read_as_int-to_wire_example :
    (c : Buffer) × (read_as_int big 2 received ≡ ok (0x1234, c)) × IsValid c × (contents c ≡ 7 ∷ [])
read_as_int-to_wire_example =
    read_as_int-to_wire little big 2 0x1234 (7 ∷ []) received received-IsValid (omega arith)
      received_wire

read_fd_lem_example : Gives (Received received (1 ∷ 2 ∷ 3 ∷ []))
read_fd_lem_example = read_fd_lem received (1 ∷ 2 ∷ 3 ∷ []) received-IsValid

prepend_lem_example : Gives (Prepended received (0 ∷ 3 ∷ []))
prepend_lem_example = prepend_lem received (0 ∷ 3 ∷ []) received-IsValid (omega arith)

write_lem_example : Gives (Wrote received (9 ∷ []))
write_lem_example = write_lem received (9 ∷ []) received-IsValid

minus-plus-greater_example :
    let it : Iterator = record { ptr = 8 } in
    (there : Iterator) × ((plus 1024 it (negsuc 2) >>= (λ moved. minus 1024 moved (negsuc 2)))
      ≡ ok there)
    × (plus 1024 it (negsuc 2) ≡ ok there)
    × (greater there it ≡ ltb_ℤ (pos 0) (negsuc 2))
    × (less there it ≡ ltb_ℤ (negsuc 2) (pos 0))
    × (there.ptr ≢ it.ptr)
minus-plus-greater_example =
    minus-plus-greater 1024 (record { ptr = 8 }) (negsuc 2) (omega arith) (omega arith)
      (omega arith) (λ e. cc)
