-- ===== src/ClusterTests.antt =====
-- Runs of the membership's model on concrete inputs.
use medusa.Base.{ℕ, ◌+◌, not, true, ◌==◌, ◌≡◌, refl, [], ◌∷◌, bytes_of, same, none}
use medusa.GoMap
use medusa.Membership.{Member, Membership, new, merge}
use medusa.Membership.Coherent.{IsCoherent, merge-IsCoherent, new-IsCoherent}
use medusa.Membership.Detection.{Detector, detect_failures}
use medusa.Membership.Answered.{detect_failures-answered}
use medusa.Membership.Views.{gossip, evict, changes, changes-IsCoherent, merge-removed}

abbrev here : Member
here = record { id = bytes_of "a"; addr = bytes_of "h:1" }

abbrev peer : Member
peer = record { id = bytes_of "b"; addr = bytes_of "h:2" }

changes-IsCoherent_example :
    IsCoherent {H = ℕ}
      (changes (gossip (peer ∷ []) ∷ evict (bytes_of "b") 7 ∷ gossip (peer ∷ []) ∷ []) (new here 1))
changes-IsCoherent_example =
    changes-IsCoherent here 1
      (gossip (peer ∷ []) ∷ evict (bytes_of "b") 7 ∷ gossip (peer ∷ []) ∷ [])

-- The view after `peer` was evicted.
abbrev alone : Membership ℕ
alone = record {
  self = here;
  backups = 1;
  members = (here.id, here) ∷ [];
  version = 2;
  table_ver = 3;
  table = (new {H = ℕ} here 1).table;
  misses = [];
  phi = [];
  removed = (peer.id, 7) ∷ [];
}

merge-removed_example : GoMap.lookup peer.id (merge alone (peer ∷ [])).1.members ≡ none
unfolding GoMap.lookup GoMap.has same
merge-removed_example = merge-removed alone peer.id (peer ∷ []) refl

-- A detector that warms up with the first heartbeat and suspects every silence
abbrev nervous : Detector ℕ
nervous = record {
  new_history = 0;
  record_beat = λ now h. h + 1;
  warm = λ h. not (h == 0);
  phi_high = λ now h. true;
}

abbrev pair : Membership ℕ
pair = (merge (new here 1) (peer ∷ record { id = bytes_of "c"; addr = bytes_of "h:3" } ∷ [])).1

detect_failures-answered_example :
    IsCoherent (detect_failures nervous 1 (λ id. same id (bytes_of "b")) (λ id. 5) pair).1
    × (GoMap.lookup
          (bytes_of "b")
          (detect_failures nervous 1 (λ id. same id (bytes_of "b")) (λ id. 5) pair).1.members
        ≡ GoMap.lookup (bytes_of "b") pair.members)
unfolding same
detect_failures-answered_example =
    detect_failures-answered nervous 1 (λ id. same id (bytes_of "b")) (λ id. 5) pair (bytes_of "b")
      (merge-IsCoherent (new here 1)
        (peer ∷ record { id = bytes_of "c"; addr = bytes_of "h:3" } ∷ []) (new-IsCoherent here 1))
      refl
