-- ===== src/Raft/Persist.antt =====
-- src/raft/raft.go: `persist`, `readPersist`, `Make`, `Kill`, `Snapshot`.
use mit_6_5840_2024_lab.Common.{
  ℕ, true, false, Option, none, some, [], ltb, leb, ◌==◌, replicate, if◌then◌else◌, ◌>>=◌,
}
use mit_6_5840_2024_lab.Common.Int.{ℤ, pos, negsuc}
use mit_6_5840_2024_lab.Raft.Types.{
  follower, noop, Log, ApplyMsg, Saved, Codec, Persister, Raft, entries, of_list, enqueue, clean,
  save,
}
use mit_6_5840_2024_lab.Raft.Index.{base, local_index, global_log_len, internal_index, slice_from}

abbrev pub vote_code : Option ℕ → ℤ
vote_code none = negsuc 0
vote_code (some v) = pos v

-- `tmp == -1` is no vote. Another negative number is never written; it would be kept as it is.
abbrev pub vote_of : ℤ → Option ℕ
vote_of (pos v) = some v
vote_of (negsuc n) = none

module _ {C B : Type 0} ⦃codec : Codec C B⦄ where
  abbrev pub saved_state : Raft C B → Saved C
  saved_state rf = record {
    state = rf.state;
    current_term = rf.current_term;
    log = entries rf.log;
    snapshot_index = rf.snapshot_index;
    snapshot_term = rf.snapshot_term;
    vote = vote_code rf.voted_for;
  }

  unfoldable pub persist : Raft C B → Raft C B
  unfolding save
  persist rf = record rf {
    persister = save rf.persister (codec.encode (saved_state rf)) rf.snapshot;
  }

  abbrev restore : Raft C B → Saved C → Option (Raft C B)
  restore rf s = do
    log ← of_list s.log
    some (record rf {
      state = s.state;
      current_term = s.current_term;
      log = log;
      voted_for = vote_of s.vote;
      snapshot = rf.persister.snapshot;
      snapshot_index = s.snapshot_index;
      snapshot_term = s.snapshot_term;
      last_applied = log.first.index;
    })

  -- `readPersist(rf.persister.ReadRaftState())`
  unfoldable pub read_persist : Raft C B → Option (Raft C B)
  read_persist rf =
      if codec.size rf.persister.raftstate == 0
      then some rf
      else (elim (codec.decode rf.persister.raftstate) [ none ↦ some rf | some s ↦ restore rf s ])

  -- The state that `Make` sets up before it reads the persister.
  unfoldable pub fresh : ℕ → ℕ → Persister B → ℕ → Raft C B
  fresh peers me persister now = record {
    me = me;
    peers = peers;
    persister = persister;
    dead = false;
    state = follower;
    current_term = 1;
    log = record { first = record { term = 1; type = noop; index = 0; command = none }; rest = [] };
    voted_for = none;
    snapshot = codec.empty;
    snapshot_index = 0;
    snapshot_term = 0;
    commit_index = 0;
    last_applied = 1;
    next_index = [];
    match_index = [];
    last_heart_beat = now;
    apply_queue = [];
    apply_ch = [];
  }

  abbrev pub snapshot_msg : B → ℕ → ℕ → ApplyMsg C B
  snapshot_msg snapshot index term = record {
    command_valid = false;
    command = none;
    command_index = 0;
    snapshot_valid = true;
    snapshot = snapshot;
    snapshot_term = term;
    snapshot_index = index;
  }

  -- The goroutine that `Make` starts, up to the point where it starts the others.
  unfoldable pub start_server : Raft C B → Raft C B
  unfolding clean enqueue
  start_server rf =
      let rf1 : Raft C B = if codec.size rf.snapshot == 0 then rf else record rf {
        apply_queue =
            enqueue (clean rf.apply_queue)
              (snapshot_msg rf.snapshot rf.snapshot_index rf.snapshot_term);
        last_applied = base rf;
      } in
      record rf1 {
        next_index = replicate rf1.peers (global_log_len rf1);
        match_index = replicate rf1.peers 0;
      }

  unfoldable pub make : ℕ → ℕ → Persister B → ℕ → Option (Raft C B)
  unfolding read_persist fresh start_server
  make peers me persister now = do
    rf ← read_persist (fresh peers me persister now)
    some (start_server rf)

  unfoldable pub kill : Raft C B → Raft C B
  kill rf = record rf { dead = true }

  abbrev pub trim : Raft C B → ℕ → B → Log C → Raft C B
  trim rf index snapshot log = record rf {
    log = record log { first = record (log.first) { type = noop } };
    snapshot = snapshot;
    snapshot_index = index;
    snapshot_term = log.first.term;
  }

  -- `Snapshot(index, snapshot)`, with the index in the external numbering.
  unfoldable pub take_snapshot : Raft C B → ℕ → B → Option (Raft C B)
  unfolding internal_index persist
  take_snapshot rf index snapshot =
      let prev_index : ℕ = internal_index rf index in
      if leb index rf.snapshot_index
      then some rf
      else if ltb rf.last_applied prev_index
      then some rf
      else (do
        tail ← slice_from (entries rf.log) (local_index rf prev_index)
        log ← of_list tail
        some (persist (trim rf index snapshot log)))
