-- ===== src/Examples/Demos.antt =====
-- The theorem on the demo, for the line that pays the invoice `l`.
use libbtcwallet.Base.{
  ◌≡◌, refl, true, [], ◌∷◌, codes, split, ok, ◌>>=◌, parse_u64, List, Outcome, err, done, Bytes,
  Result,
}
use libbtcwallet.Wallet.Balance.{default}
use libbtcwallet.Demo.{Session, Printed, demo_loop, bad_amount, unknown_instruction}
use libbtcwallet.Examples.Toys.{memory, resolver, services}
use libbtcwallet.Examples.Coding.{coding}

abbrev session : Session services memory
session = record {
  world = 300_000_000;
  tx_metadata = record { tx_metadata = []; store = [] };
  spawned = [];
}

abbrev lines : List (Result (Unit {0}) Bytes)
lines = ok (codes "deposit 1x") ∷ ok (codes "sent") ∷ err tt ∷ ok (codes "bal") ∷ []

abbrev printed :
    Outcome (Unit {0}) (List (Printed services memory) × Session services memory)
    → List (Printed services memory)
printed (done (ps, st)) = ps
printed o = []

-- The loop ends where the input cannot be read.
prints :
    printed (demo_loop services coding memory true default resolver lines session)
    ≡ bad_amount ∷ unknown_instruction ∷ []
unfolding demo_loop ◌>>=◌ split parse_u64
prints = refl
