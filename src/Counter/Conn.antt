-- ===== src/Counter/Conn.antt =====
-- common/counter/conn.go: what a connection adds to the storage of its user. The connection below is
-- a parameter by its result: the number of bytes that it moved, or an error.
use v2b_z.Prelude.{◌≡◌, refl, Bool, List, [], ◌∷◌, if◌then◌else◌}
use v2b_z.Prelude.Int.{ℤ, pos, add64, ltb_ℤ}
use v2b_z.Counter.{TrafficStorage}

-- Read and Write overwrite the counter by the length of the last call, on an error too.
unfoldable pub conn_read : ℤ → TrafficStorage → TrafficStorage
conn_read n s = record s { up_counter = n }

unfoldable pub conn_write : ℤ → TrafficStorage → TrafficStorage
conn_write n s = record s { down_counter = n }

-- `failed` says whether the call below returned an error; `n` is the length of the buffer.
unfoldable pub read_buffer : Bool → ℤ → TrafficStorage → TrafficStorage
read_buffer failed n s =
    if failed
    then s
    else if ltb_ℤ (pos 0) n
    then record s { up_counter = add64 s.up_counter n }
    else s

unfoldable pub write_buffer : Bool → ℤ → TrafficStorage → TrafficStorage
write_buffer failed n s =
    if failed
    then s
    else if ltb_ℤ (pos 0) n
    then record s { down_counter = add64 s.down_counter n }
    else s

unfoldable pub read_packet : Bool → ℤ → TrafficStorage → TrafficStorage
read_packet failed n s = if failed then s else record s { up_counter = add64 s.up_counter n }

unfoldable pub write_packet : Bool → ℤ → TrafficStorage → TrafficStorage
write_packet failed n s =
    if failed
    then s
    else if ltb_ℤ (pos 0) n
    then record s { down_counter = add64 s.down_counter n }
    else s

-- The count functions that UnwrapReader and UnwrapWriter hand to the library.
unfoldable pub read_func : ℤ → TrafficStorage → TrafficStorage
read_func n s = record s { up_counter = add64 s.up_counter n }

unfoldable pub write_func : ℤ → TrafficStorage → TrafficStorage
write_func n s = record s { down_counter = add64 s.down_counter n }

-- The reads of a connection, one after the other, without errors.
unfoldable pub conn_reads : List ℤ → TrafficStorage → TrafficStorage
unfolding conn_read
conn_reads [] s = s
conn_reads (n ∷ ns) s = conn_reads ns (conn_read n s)

abbrev last_or : ℤ → List ℤ → ℤ
last_or d [] = d
last_or d (n ∷ ns) = last_or n ns

-- After successive reads of a connection the upload counter holds the length of the last read
-- alone.
pub up_counter-conn_reads :
    (ns : List ℤ) (n : ℤ) (s : TrafficStorage) → (conn_reads (n ∷ ns) s).up_counter ≡ last_or n ns
unfolding conn_reads
up_counter-conn_reads [] n s = refl
up_counter-conn_reads (m ∷ ns) n s = up_counter-conn_reads ns m (conn_read n s)
