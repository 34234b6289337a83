-- ===== src/Samples/Forwards.antt =====
-- internal/forward/manager.go and alias.go on one target.
use windmill_gate.Base.Unicode.{is_space, runes}
use windmill_gate.Store.Forwards.{close_stale_forwards, save_forward}
use windmill_gate.Base.{zero, suc, ◌≡◌, refl, codes, ◌∷◌, [], none, some, equal}
use windmill_gate.Base.Results.{ok}
use windmill_gate.Base.Maps.{lookup, delete, insert}
use windmill_gate.Store.{Tables}
use windmill_gate.Forward.Manager.{
  Manager, Outside, already_finished, new_manager, add, close_target, list,
}
use windmill_gate.Forward.Manager.Tracked.{
  Call, adds, called, Reachable, made, after, IsTracked, Reachable-IsTracked,
}
use windmill_gate.Samples.Stores.{no_tables, bound, forward}

-- the port of the first attempt is taken
abbrev pub outside : Outside
outside = record {
  backend_of = λ id. some (codes "9");
  new_id = some (codes "fw_1");
  allocate = λ attempt. some 18443;
  open_forward = λ attempt backend remote local. elim attempt [ zero ↦ none | suc n ↦ some 77 ];
  close_handle = λ handle. already_finished;
  now = 5;
}

abbrev tables : Tables
tables = record no_tables {
  targets = record { binding = bound; detached_at = none } ∷ [];
  forwards = forward ∷ [];
}

abbrev pub started : Manager
started = record {
  forwards = [];
  tables = record tables {
    forwards =
        record forward {
          state = codes "closed";
          closed_by = some (codes "daemon-restart");
          closed_at = some 2;
        }
        ∷ [];
  };
  closed = [];
}

pub new_started : new_manager 2 tables ≡ ok started
unfolding new_manager close_stale_forwards equal
new_started = refl

abbrev pub adding : Call
adding = adds outside (codes "t") 443 (codes "op")

pub reached : Reachable (called adding started)
reached = after adding started (made 2 tables started new_started) tt

opened :
    list [] (called adding started)
    ≡ record {
      id = codes "fw_1";
      target_id = codes "t";
      remote_host = codes "127.0.0.1";
      remote_port = 443;
      local_host = codes "127.0.0.1";
      local_port = 18443;
      state = codes "active";
      created_by = codes "op";
      created_at = 5;
    }
      ∷ []
unfolding list called add runes is_space save_forward equal insert
opened = refl

closed_all : list [] (close_target outside (codes "t") (codes "op") (called adding started)).1 ≡ []
unfolding list called close_target add runes is_space save_forward equal insert lookup delete
closed_all = refl

Reachable-IsTracked_example : IsTracked (called adding started)
Reachable-IsTracked_example = Reachable-IsTracked (called adding started) reached
