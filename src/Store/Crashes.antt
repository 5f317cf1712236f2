-- ===== src/Store/Crashes.antt =====
-- Any sequence of loads, commits and crashes (store.ts), against a project that is only a history.
use mathlib.Core.List.{append-nil, append_assoc}
use georesearch_dsh.Prelude.{
  String, ◌≡◌, refl, sym, subst, ap, ◌∙◌, Bool, true, false, Option, none, some, List, [], ◌∷◌,
  ◌++◌, ok, err, Failure,
}
use georesearch_dsh.Contracts.State.{ProjectReducerState, ProjectStateFile}
use georesearch_dsh.Contracts.Event.{ProjectEvent}
use georesearch_dsh.Store.Disk.{Line, entry, Disk, Encoding}
use georesearch_dsh.Store.Log.{torn, separated}
use georesearch_dsh.Store.Snapshot.{rebuild, read_consistent_locked}
use georesearch_dsh.Store.Commit.{ProjectCommitRequest, next_event, appended, commit, load}
use georesearch_dsh.Store.Synced.{IsSynced, read_synced, read_torn}
use georesearch_dsh.Store.Durability.{
  commit_durable, committed_request, committed_state, failed_commit_writes_nothing, read_appended,
  read_unended, IsSynced-unended,
}

-- What a project is, apart from its files: its events, the last of them, and the state they make.
pub record History : Type 0 where
  pub events : List ProjectEvent
  pub latest : ProjectEvent
  pub state : ProjectReducerState

abbrev pub extended : History → ProjectEvent → ProjectReducerState → History
extended h e s = record { events = h.events ++ e ∷ []; latest = e; state = s }

module _ (p : Encoding) (project_id : String) where
  abbrev pub file_of : History → ProjectStateFile
  file_of h = rebuild p project_id h.events h.latest h.state

  abbrev pub Synced : Disk → History → Type 0
  Synced disk h = IsSynced p project_id disk h.events h.latest h.state

  -- Reading the disk gives the state file of the history, and leaves a disk that agrees with it.
  pub record IsRecoverable (disk : Disk) (h : History) : Type 0 where
    pub repaired : Disk
    pub synced : Synced repaired h
    pub rebuilt : Bool
    pub truncated : Bool
    pub reads : read_consistent_locked p project_id true disk ≡ (
      ok (record {
        state_file = file_of h;
        rebuilt_snapshot = rebuilt;
        truncated_tail = truncated;
      }),
      repaired,
    )

  abbrev pub event_of : History → ProjectCommitRequest → String → ProjectEvent
  event_of h r time = next_event p (file_of h) r time

  -- The disk that a call repairs before it does anything else.
  abbrev pub repaired_disk : Disk → Disk
  repaired_disk disk = (read_consistent_locked p project_id true disk).1

  -- A piece of what an append writes behind the log: nothing after the separator, or a text that is
  -- empty or no JSON. Every proper beginning of the text of an object is such a text.
  abbrev pub is_piece : Option Line → Bool
  is_piece none = true
  is_piece (some t) = torn t

  -- The log with an event whose newline is missing.
  abbrev pub unended : Disk → ProjectEvent → Disk
  unended disk e = record disk { log = record (separated disk.log) { tail = some (entry e) } }

  -- A call that ends, or a call that dies: within the append of a commit, before the last byte of the
  -- append, which is the newline, or between the two writes. A write that throws leaves the same
  -- files as a process that dies in it.
  pub data Step : Disk → History → Disk → History → Type 0 where
    loads : {d : Disk} {h : History} → Step d h (load p project_id d).1 h
    fails :
        {d : Disk} {h : History} (r : ProjectCommitRequest) (time : String) (e : Failure)
        → (commit p project_id r time d).0 ≡ err e
        → Step d h (commit p project_id r time d).1 h
    commits :
        {d : Disk} {h : History} (r : ProjectCommitRequest) (time : String) (f : ProjectStateFile)
        → p.canonical_utc time ≡ true
        → (commit p project_id r time d).0 ≡ ok f
        → Step d h (commit p project_id r time d).1 (extended h (event_of h r time) f.state)
    dies_in_append :
        {d : Disk} {h : History} (o : Option Line)
        → is_piece o ≡ true
        → Step d h
            (record (repaired_disk d) {
              log = record (separated (repaired_disk d).log) { tail = o };
            })
            h
    dies_before_newline :
        {d : Disk} {h : History} (r : ProjectCommitRequest) (time : String) (f : ProjectStateFile)
        → p.canonical_utc time ≡ true
        → (commit p project_id r time d).0 ≡ ok f
        → Step d h
            (unended (repaired_disk d) (event_of h r time))
            (extended h (event_of h r time) f.state)
    dies_between :
        {d : Disk} {h : History} (r : ProjectCommitRequest) (time : String) (f : ProjectStateFile)
        → p.canonical_utc time ≡ true
        → (commit p project_id r time d).0 ≡ ok f
        → Step d h
            (appended (repaired_disk d) (event_of h r time))
            (extended h (event_of h r time) f.state)

  pub data Steps : Disk → History → Disk → History → Type 0 where
    stop : {d : Disk} {h : History} → Steps d h d h
    follow :
        {d d' d'' : Disk} {h h' h'' : History}
        → Step d h d' h'
        → Steps d' h' d'' h''
        → Steps d h d'' h''

  IsRecoverable-Synced : (d : Disk) (h : History) → Synced d h → IsRecoverable d h
  IsRecoverable-Synced d h s = record {
    repaired = d;
    synced = s;
    rebuilt = false;
    truncated = false;
    reads = read_synced p project_id d h.events h.latest h.state s.logged true s.snapshot;
  }

  Synced-separated :
      (d : Disk) (h : History) → Synced d h → Synced (record d { log = separated d.log }) h
  Synced-separated d h s = record {
    logged = record {
      whole = refl;
      parsed = rw append-nil s.logged.parsed;
      final = s.logged.final;
      replayed = s.logged.replayed;
    };
    snapshot = s.snapshot;
  }

  IsRecoverable-piece :
      (d : Disk) (h : History) (o : Option Line)
      → Synced d h
      → is_piece o ≡ true
      → IsRecoverable (record d { log = record (separated d.log) { tail = o } }) h
  IsRecoverable-piece d h none s k = IsRecoverable-Synced _ h (Synced-separated d h s)
  IsRecoverable-piece d h (some t) s k = record {
    repaired = record d { log = separated d.log };
    synced = Synced-separated d h s;
    rebuilt = false;
    truncated = true;
    reads = read_torn p project_id d h.events h.latest h.state s.logged t k s.snapshot;
  }

  repaired_is : (d : Disk) (h : History) (i : IsRecoverable d h) → repaired_disk d ≡ i.repaired
  repaired_is d h i = ap (λ x. x.1) i.reads

  -- A commit on a disk is that commit on the disk as it is repaired.
  commit_repaired :
      (d : Disk) (h : History) (i : IsRecoverable d h) (r : ProjectCommitRequest) (time : String)
      → commit p project_id r time d ≡ commit p project_id r time i.repaired
  unfolding commit
  commit_repaired d h i r time =
      let j =
        read_synced p project_id i.repaired h.events h.latest h.state i.synced.logged true
          i.synced.snapshot in
      rw (i.reads, j)

  IsRecoverable-commits :
      (d : Disk) (h : History) (i : IsRecoverable d h) (r : ProjectCommitRequest) (time : String)
      (f : ProjectStateFile)
      → p.canonical_utc time ≡ true
      → (commit p project_id r time d).0 ≡ ok f
      → IsRecoverable (commit p project_id r time d).1 (extended h (event_of h r time) f.state)
  IsRecoverable-commits d h i r time f utc done =
      let here = commit_repaired d h i r time in
      let done' = ap (λ x. x.0) (sym here) ∙ done in
      let (valid, expected) =
        committed_request p project_id i.repaired h.events h.latest h.state i.synced r time f
          done' in
      let reduced =
        committed_state p project_id i.repaired h.events h.latest h.state i.synced r time f done' in
      let (result, synced', _, _) =
        commit_durable p project_id i.repaired h.events h.latest h.state i.synced r time f.state
          valid expected utc reduced in
      subst (λ x. IsRecoverable x (extended h (event_of h r time) f.state))
        (sym (ap (λ x. x.1) (here ∙ result)))
        (IsRecoverable-Synced _ (extended h (event_of h r time) f.state) synced')

  -- A commit that has got as far as its event, with or without the newline, is completed.
  IsRecoverable-logged :
      (d : Disk) (h : History) (i : IsRecoverable d h) (r : ProjectCommitRequest) (time : String)
      (f : ProjectStateFile)
      → p.canonical_utc time ≡ true
      → (commit p project_id r time d).0 ≡ ok f
      → IsRecoverable
          (appended i.repaired (event_of h r time))
          (extended h (event_of h r time) f.state)
        × IsRecoverable
            (unended i.repaired (event_of h r time))
            (extended h (event_of h r time) f.state)
  IsRecoverable-logged d h i r time f utc done =
      let done' = ap (λ x. x.0) (sym (commit_repaired d h i r time)) ∙ done in
      let (valid, expected) =
        committed_request p project_id i.repaired h.events h.latest h.state i.synced r time f
          done' in
      let reduced =
        committed_state p project_id i.repaired h.events h.latest h.state i.synced r time f done' in
      let (_, synced', _, _) =
        commit_durable p project_id i.repaired h.events h.latest h.state i.synced r time f.state
          valid expected utc reduced in
      (
        record {
          repaired = _;
          synced = synced';
          rebuilt = true;
          truncated = false;
          reads =
              read_appended p project_id i.repaired h.events h.latest h.state i.synced r time
                f.state valid expected utc reduced;
        },
        record {
          repaired = _;
          synced =
              IsSynced-unended p project_id i.repaired h.events h.latest h.state i.synced r time
                f.state valid expected utc reduced;
          rebuilt = true;
          truncated = false;
          reads =
              read_unended p project_id i.repaired h.events h.latest h.state i.synced r time f.state
                valid expected utc reduced;
        },
      )

  Step-IsRecoverable :
      {d : Disk} {h : History} {d' : Disk} {h' : History}
      → Step d h d' h'
      → IsRecoverable d h
      → IsRecoverable d' h'
  unfolding load
  Step-IsRecoverable {d} {h} loads i =
      subst (λ x. IsRecoverable x h) (sym (repaired_is d h i))
        (IsRecoverable-Synced i.repaired h i.synced)
  Step-IsRecoverable {d} {h} (fails r time e q) i =
      let here = commit_repaired d h i r time in
      subst (λ x. IsRecoverable x h)
        (sym (
          ap (λ x. x.1) here
          ∙ failed_commit_writes_nothing p project_id i.repaired h.events h.latest h.state i.synced
              r time e (ap (λ x. x.0) (sym here) ∙ q)))
        (IsRecoverable-Synced i.repaired h i.synced)
  Step-IsRecoverable {d} {h} (commits r time f utc q) i = IsRecoverable-commits d h i r time f utc q
  Step-IsRecoverable {d} {h} (dies_in_append o k) i =
      subst
        (λ (x : Disk). IsRecoverable (record x { log = record (separated x.log) { tail = o } }) h)
        (sym (repaired_is d h i)) (IsRecoverable-piece i.repaired h o i.synced k)
  Step-IsRecoverable {d} {h} (dies_before_newline r time f utc q) i =
      subst
        (λ x.
          IsRecoverable (unended x (event_of h r time)) (extended h (event_of h r time) f.state))
        (sym (repaired_is d h i)) (IsRecoverable-logged d h i r time f utc q).1
  Step-IsRecoverable {d} {h} (dies_between r time f utc q) i =
      subst
        (λ x.
          IsRecoverable (appended x (event_of h r time)) (extended h (event_of h r time) f.state))
        (sym (repaired_is d h i)) (IsRecoverable-logged d h i r time f utc q).0

  Steps-IsRecoverable :
      {d : Disk} {h : History} {d' : Disk} {h' : History}
      → Steps d h d' h'
      → IsRecoverable d h
      → IsRecoverable d' h'
  Steps-IsRecoverable stop i = i
  Steps-IsRecoverable (follow a rest) i = Steps-IsRecoverable rest (Step-IsRecoverable a i)

  -- The events of `h` are the first events of `h'`.
  abbrev pub Extends : History → History → Type 0
  Extends h h' = (more : List ProjectEvent) × (h'.events ≡ h.events ++ more)

  Extends-refl : (h : History) → Extends h h
  Extends-refl h = ([], rw append-nil)

  Step-Extends : {d : Disk} {h : History} {d' : Disk} {h' : History} → Step d h d' h' → Extends h h'
  Step-Extends {d} {h} loads = Extends-refl h
  Step-Extends {d} {h} (fails r time e q) = Extends-refl h
  Step-Extends {d} {h} (commits r time f utc q) = (event_of h r time ∷ [], refl)
  Step-Extends {d} {h} (dies_in_append t k) = Extends-refl h
  Step-Extends {d} {h} (dies_before_newline r time f utc q) = (event_of h r time ∷ [], refl)
  Step-Extends {d} {h} (dies_between r time f utc q) = (event_of h r time ∷ [], refl)

  Steps-Extends :
      {d : Disk} {h : History} {d' : Disk} {h' : History} → Steps d h d' h' → Extends h h'
  Steps-Extends {d} {h} stop = Extends-refl h
  Steps-Extends {d} {h} (follow a rest) =
      let (first, e) = Step-Extends a in
      let (more, e') = Steps-Extends rest in
      (first ++ more, e' ∙ (ap (λ x. x ++ more) e ∙ append_assoc h.events first more))

  -- A project whose snapshot agrees with its log may go through any sequence of loads, of commits that
  -- succeed or fail, and of crashes within an append, before the newline that ends an append, or
  -- between the two writes of a commit. The next load then returns the state file of all the events
  -- that were committed or stand whole in the log, in order, and leaves such a project again; the
  -- events from before are still the first.
  pub crashes_lose_nothing :
      (d d' : Disk) (h h' : History)
      → Synced d h
      → Steps d h d' h'
      → (repaired : Disk) × (load p project_id d' ≡ (ok (file_of h'), repaired))
        × Synced repaired h'
        × Extends h h'
  unfolding load
  crashes_lose_nothing d d' h h' s run =
      let i = Steps-IsRecoverable run (IsRecoverable-Synced d h s) in
      (i.repaired, rw i.reads, i.synced, Steps-Extends run)
