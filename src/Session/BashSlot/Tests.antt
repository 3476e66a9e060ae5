-- ===== src/Session/BashSlot/Tests.antt =====
-- Runs of the foreground Bash slot of pkg/monetdroid/session.go.
use monetdroid.Prelude.{◌≡◌, refl, List, [], ◌∷◌, codes, same, is_empty, arith}
use monetdroid.Session.BashSlot.{no_bash, connected_stream, await_bash_stream, waits}
use monetdroid.Session.BashSlot.Owner.{
  SlotOp, uses, connects, answers, slot_run, Use, last_use, connected_stream-last_use,
}

abbrev ops : List SlotOp
ops =
    uses (codes "a") (codes "ls") 0
    ∷ connects (codes "a")
    ∷ answers (codes "a")
    ∷ uses (codes "b") (codes "go test") 1
    ∷ connects (codes "a")
    ∷ connects (codes "b")
    ∷ []

abbrev no_use : Use
no_use = record { id = []; cmd = []; buffer = 0 }

b_is_outstanding :
    await_bash_stream (slot_run no_bash (uses (codes "b") (codes "ls") 1 ∷ [])) (codes "b") ≡ waits
unfolding await_bash_stream slot_run same
b_is_outstanding = refl

connected_stream-last_use_example :
    last_use no_use ops ≡ record { id = codes "b"; cmd = codes "go test"; buffer = 1 }
connected_stream-last_use_example =
    connected_stream-last_use no_use ops (codes "b") (codes "go test") 1
      (unfold slot_run same is_empty in refl) (ground arith)
      (unfold connected_stream slot_run same is_empty in refl)
