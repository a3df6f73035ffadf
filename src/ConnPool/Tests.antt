-- ===== src/ConnPool/Tests.antt =====
-- A run of the pool: one connection is made, comes back, is reused, and comes back again.
use eureka.Common.{◌≡◌, refl, [], ◌∷◌, none, some, ok, err, undefined, arith}
use eureka.ConnPool.{
  Conn, Pool, make, retire, admit, put, release_slot, retire_from, admit_from, split_last, evict,
  idle_conn,
}
use eureka.ConnPool.World.{
  World, start, Reach, here, next, reserves, creates, dies, waits, assigned,
}
use eureka.ConnPool.Invariant.{Inv, Reach-Inv}
use eureka.ConnPool.NoneKept.{put-Reach-undefined}
use eureka.ConnPool.Idle.{SplitsByAge, retire-SplitsByAge}
use eureka.ConnPool.Owned.{owned, owned-Reach}

program : Unit {0}
unfolding start make retire retire_from admit admit_from split_last put evict release_slot
program = tt

abbrev handle : Conn
handle = record { raw_conn = 7; raw_conn_creation = 5 }

abbrev one_idle : Pool
one_idle = record {
  capacity = 2;
  max_idle = 1;
  idle_timeout = 10;
  size = 1;
  idle_list = idle_conn handle 5 ∷ [];
}

abbrev one_made : World
one_made = record {
  pool = one_idle;
  live = [];
  pending = 0;
  now = 18;
  closed = [];
  made = 7 ∷ [];
  lost = 0;
}

history : Reach (start (make 2 1 10) 5) one_made
unfolding program
history =
    next
      (next (next (next here (reserves _ refl)) (creates 7 0 refl))
        (dies [] [] handle none _ refl refl))
      (waits 13)

-- The only idle connection has timed out.
retires_it : (retire one_idle 18).0 ≡ idle_conn handle 5 ∷ []
unfolding program
retires_it = refl

-- A second handle comes back to a full deque: its front is retired.
evicts :
    put one_idle (record { raw_conn = 8; raw_conn_creation = 6 }) 9
    ≡ ok (
      some (idle_conn handle 5),
      record one_idle {
        size = 0;
        idle_list = idle_conn (record { raw_conn = 8; raw_conn_creation = 6 }) 9 ∷ [];
      },
    )
unfolding program
evicts = refl

Reach-Inv_example : Inv one_made
Reach-Inv_example = Reach-Inv 2 1 10 5 (omega arith) (omega arith) history

retire-SplitsByAge_example :
    SplitsByAge 18 10
      (idle_conn handle 5 ∷ [])
      (retire one_idle 18).0
      (retire one_idle 18).1.idle_list
retire-SplitsByAge_example =
    retire-SplitsByAge 2 1 10 5 {v = one_made} (omega arith) (omega arith) history

owned-Reach_example : owned 7 one_made ≡ 1
owned-Reach_example = owned-Reach 7 2 1 10 5 (omega arith) history

-- A connection was made and its handle comes back.
abbrev keeps_none : World
keeps_none = record {
  pool = record { capacity = 4; max_idle = 0; idle_timeout = 10; size = 1; idle_list = [] };
  live = handle ∷ [];
  pending = 0;
  now = 5;
  closed = [];
  made = 7 ∷ [];
  lost = 0;
}

keeps_none-Reach : Reach (start (make 4 0 10) 5) keeps_none
unfolding program
keeps_none-Reach = next (next here (reserves _ refl)) (creates 7 0 refl)

put-Reach-undefined_example : put keeps_none.pool handle 9 ≡ err undefined
put-Reach-undefined_example = put-Reach-undefined 4 10 5 9 handle {v = keeps_none} keeps_none-Reach

-- One handle is assigned to another: a slot is lost.
overwrites : (v : World) × Reach (start (make 4 1 10) 5) v × (v.pool.size ≡ 1) × (v.live ≡ [])
unfolding program
overwrites = (
  _,
  next (next (next here (reserves _ refl)) (creates 7 0 refl)) (assigned [] [] handle refl),
  refl,
  refl,
)
