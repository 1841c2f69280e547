-- ===== src/Tests/Races.antt =====
-- Two nodes that publish at once.
use lbsync.Prelude.{ℕ, ◌≡◌, refl, true, false, none, some, [], ◌==◌, if◌then◌else◌}
use lbsync.Version.{newer}
use lbsync.Engine.{Record}
use lbsync.Engine.Store.Advance.{Beats-none, Beats-some}
use lbsync.Engine.Store.Advance.{Advances}
use lbsync.Engine.Race.{
  go, acquire, beaten, decide, put, release, ended, moved, waiting, checking, putting, leaving,
  Nodes, Stage, of_node, at_rest, Turns, nil, after,
}
use lbsync.Engine.Race.Safety.{Origin, Turns-newest}
use lbsync.Engine.Race.Loss.{AllRefused, refused_regresses}
use lbsync.Tests.Fixtures.{small}

-- Node 0 has version 2, every other node version 3.
abbrev versions : ℕ → Record
versions i = if i == 0 then small 2 [] else small 3 []

two_before_three : newer (versions 1).version (versions 0).version ≡ true
unfolding newer
two_before_three = refl

three_stays : newer (versions 0).version (versions 1).version ≡ false
unfolding newer
three_stays = refl

abbrev one_ended : ℕ → Stage
one_ended =
    moved
      (moved
        (moved (moved (moved (at_rest none).stage 1 waiting) 1 (checking true)) 1 (putting true)) 1
        (leaving true true))
      1 (ended true)

abbrev both_ended : Nodes
both_ended = record {
  cell = record { stored = some (small 3 []); owner = none };
  stage =
      moved (moved (moved (moved one_ended 0 waiting) 0 (checking true)) 0 (leaving true true)) 0
        (ended true);
}

in_turn : Turns true versions (at_rest none) both_ended
in_turn =
    after
      (after
        (after
          (after
            (after
              (after
                (after (after (after nil (of_node 1 go)) (of_node 1 (acquire refl)))
                  (of_node 1 (decide (Beats-none (versions 1)))))
                (of_node 1 put))
              (of_node 1 release))
            (of_node 0 go))
          (of_node 0 (acquire refl)))
        (of_node 0 (beaten refl three_stays)))
      (of_node 0 release)

Turns-newest_example :
    Advances none (some (small 3 []))
    × ((i : ℕ) → both_ended.stage i ≡ ended true → Advances (some (versions i)) (some (small 3 [])))
    × Origin versions none (some (small 3 []))
Turns-newest_example = Turns-newest versions none both_ended in_turn

refused_regresses_example :
    (s : Nodes) × (run : Turns false versions (at_rest (some (small 1 []))) s) × AllRefused run
    × (s.stage 0 ≡ ended true)
    × (s.stage 1 ≡ ended true)
    × (s.cell.stored ≡ some (small 2 []))
    × ¬ Advances (some (small 3 [])) s.cell.stored
refused_regresses_example =
    refused_regresses versions (some (small 1 []))
      (Beats-some (versions 0) (small 1 []) (unfold newer in refl))
      (Beats-some (versions 1) (small 1 []) (unfold newer in refl)) two_before_three
