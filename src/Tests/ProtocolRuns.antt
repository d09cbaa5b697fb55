-- ===== src/Tests/ProtocolRuns.antt =====
-- Runs of the operations of src/ProtocolManager.cpp.
use barren_engine.Common.{reached, null_pointer, ℕ, ◌≡◌, refl, true, false, List, [], ◌∷◌, arith}
use barren_engine.ProtocolManager.Types.{udp, quic, ProtocolConfig, ProtocolManager}
use barren_engine.ProtocolManager.Operations.{new_manager, start}
use barren_engine.ProtocolManager.Sessions.{
  Call, initializes, starts, stops, connects, sends, sets_type, sets_encryption, Reply, run, step,
  converse,
}
use barren_engine.ProtocolManager.Refinement.{
  session, in_session, IsRunnable, run-converse, run-initializes,
}
use barren_engine.Tests.Numbers.{whole}

abbrev config : ProtocolConfig
config = record {
  type = udp;
  port = 7777;
  host = [];
  max_connections = 32;
  buffer_size = 4096;
  enable_multiplexing = false;
  enable_compression = false;
  enable_encryption = false;
}

abbrev manager : ProtocolManager ℕ
manager = new_manager config

abbrev calls : List Call
calls =
    sets_type quic
    ∷ sets_encryption true
    ∷ starts
    ∷ connects [] 7777
    ∷ sends [] (1 ∷ [])
    ∷ stops
    ∷ []

manager-IsRunnable : IsRunnable manager
unfolding IsRunnable new_manager
manager-IsRunnable e = absurd (ground arith)

run-converse_example : in_session (run manager calls) ≡ converse (session manager) calls
run-converse_example = run-converse calls manager manager-IsRunnable

null_run : run manager (starts ∷ []) ≡ null_pointer
unfolding run step start new_manager
null_run = refl

run-initializes_example :
    (r : ProtocolManager ℕ × List Reply) × (run (new_manager config) (initializes config ∷ calls)
      ≡ reached r)
run-initializes_example = run-initializes config config calls
