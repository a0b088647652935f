-- ===== src/Streams/Client/ExactlyOnce.antt =====
-- What a publisher of _client.py publishes reaches the log of _stream.py once and in order,
-- whatever the network does to its signals.
use sdk_python.Prelude.{
  ℕ, ◌+◌, ◌≤◌, ◌<◌, ◌≡◌, refl, sym, ap, subst, ◌∙◌, ◌≢◌, ◌⊎◌, inl, inr, String, Bool, true, false,
  Option, none, some, List, [], ◌∷◌, ◌++◌, append-nil, append_assoc, leb, arith, All, Bool-cases,
  Option-cases, string_eq, if_rule,
}
use sdk_python.Prelude.Result.{ok}
use sdk_python.Prelude.Dict.{lookup, insert, lookup-insert}
use sdk_python.Streams.Types.{
  Codec, IsLawful, WorkflowStreamItem, PublishEntry, PublishInput, timeout_error,
}
use sdk_python.Streams.Stream.{WorkflowStream, is_duplicate, on_publish, append_entries}
use sdk_python.Streams.Stream.Log.{appended, append_entries_state}
use sdk_python.Streams.Stream.Dedup.{on_publish_duplicate, publishers-on_publish}
use sdk_python.Streams.Client.{
  PubValue, WorkflowStreamClient, Flush, raises, sends, encode_buffer, publish_to_topic, new_client,
  begin_flush, finish_flush, unsent,
}
use sdk_python.Streams.Client.Delivery.{
  Entry, World, In, Step, publishes, begins, stops, records, acknowledged, fails, Reach, here, next,
  AreLogged, append-AreLogged, replay, encode_buffer-AreLogged,
}

-- The last sequence that a stream took from a publisher, and 0 for one that it does not know.
last_sequence : {P : Type 0} → String → WorkflowStream P → ℕ
last_sequence id s = elim (lookup id s.publishers) [ none ↦ 0 | some ps ↦ ps.sequence ]

module _ {P : Type 0} (c : Codec P) (now : ℕ) (m : PublishInput) (s : WorkflowStream P) where
  is_duplicate_iff :
      0 < m.sequence → is_duplicate m s ≡ leb m.sequence (last_sequence m.publisher_id s)
  unfolding is_duplicate last_sequence
  is_duplicate_iff h = ground arith

  log_new :
      m.publisher_id ≢ ""
      → is_duplicate m s ≡ false
      → (on_publish c now m s).1.log ≡ s.log ++ appended c m.items
  unfolding on_publish
  log_new named new =
      let t : WorkflowStream P = record s {
        publishers =
            insert m.publisher_id (record { sequence = m.sequence; last_seen = now }) s.publishers;
      } in
      let e : (on_publish c now m s).1 ≡ (append_entries c m.items t).1 = ground arith in
      ap (λ (r : WorkflowStream P). r.log) (e ∙ append_entries_state c m.items t)

  on_publish_new :
      m.publisher_id ≢ ""
      → is_duplicate m s ≡ false
      → ((on_publish c now m s).1.log ≡ s.log ++ appended c m.items)
        × (last_sequence m.publisher_id (on_publish c now m s).1 ≡ m.sequence)
  unfolding last_sequence
  on_publish_new named new = (
    log_new named new,
    ground (
      arith,
      publishers-on_publish c now m s,
      lookup-insert m.publisher_id m.publisher_id
          (record { sequence = m.sequence; last_seen = now }) s.publishers,
    ),
  )

module _ {P V : Type 0} (c : Codec P) (convert : V → Option P) (s₀ : WorkflowStream P)
    (id : String) where
  -- A signal that was sent, against the client: it has a number of its own, and carries the
  -- batch that is pending if it has that batch's number.
  abbrev Sent : WorkflowStreamClient P V → PublishInput → Type 0
  Sent client m =
      (m.publisher_id ≡ id)
      × (0 < m.sequence)
      × ((m.sequence ≤ client.sequence)
          ⊎ ((m.sequence ≡ client.pending_seq) × (client.pending ≡ some m.items)))

  -- What waits, against the client and the last sequence in the log.
  abbrev Waits :
      WorkflowStreamClient P V → List (Entry P V) → ℕ → Option (List PublishEntry) → Type 0
  Waits client waiting last none = (waiting ≡ []) × (last ≡ client.sequence)
  Waits client waiting last (some batch) =
      (client.pending_seq ≡ client.sequence + 1)
      × (((last ≡ client.sequence) × (encode_buffer c convert waiting ≡ some batch))
          ⊎ ((last ≡ client.pending_seq) × (waiting ≡ [])))

  abbrev Flies : WorkflowStreamClient P V → Option PublishInput → Type 0
  Flies client none = Unit
  Flies client (some m) = (m.sequence ≡ client.pending_seq) × (client.pending ≡ some m.items)

  -- `done` is in the log, `waiting` is in the pending batch and not in the log.
  record Inv (client : WorkflowStreamClient P V) (flying : Option PublishInput)
      (sent : List PublishInput) (history : List (ℕ × PublishInput)) (s : WorkflowStream P)
      (published : List (Entry P V)) : Type 0 where
    done : List (Entry P V)
    waiting : List (Entry P V)
    named : client.publisher_id ≡ id
    order : published ≡ done ++ (waiting ++ client.buffer)
    items : List (WorkflowStreamItem P)
    log : s.log ≡ s₀.log ++ items
    logged : AreLogged c convert done items
    waits : Waits client waiting (last_sequence id s) client.pending
    sound : All (Sent client) sent
    past : All (λ e. e.1.sequence ≤ last_sequence id s) history
    flies : Flies client flying

  abbrev WorldInv : World P V → Type 0
  WorldInv w = Inv w.client w.flying w.sent w.history (replay c w.history s₀) w.published

All-In : {A : Type 0} (Q : A → Type 0) (xs : List A) (a : A) → All Q xs → In a xs → Q a
All-In Q (x ∷ xs) a h (inl e) = subst Q (sym e) h.0
All-In Q (x ∷ xs) a h (inr m) = All-In Q xs a h.1 m
All-In Q [] a h m = absurd m

All-imp :
    {A : Type 0} (Q R : A → Type 0) (xs : List A) → ((a : A) → Q a → R a) → All Q xs → All R xs
All-imp Q R [] f h = tt
All-imp Q R (x ∷ xs) f h = (f x h.0, All-imp Q R xs f h.1)

module _ {P V : Type 0} where
  publish_rule :
      (Q : WorkflowStreamClient P V → Type 0) (topic : String) (v : PubValue P V) (force : Bool)
      (s : WorkflowStreamClient P V)
      → ((event : Bool)
          → Q (record s { buffer = s.buffer ++ ((topic, v) ∷ []); flush_event = event }))
      → Q (publish_to_topic topic v force s)
  unfolding publish_to_topic
  publish_rule Q topic v force s h = if_rule Q _ _ _ (h true) (h s.flush_event)

module _ {P V : Type 0} (c : Codec P) (convert : V → Option P) where
  -- The two ways to send a signal: again, or a new batch.
  begin_flush-sends :
      (now : ℕ) (s client : WorkflowStreamClient P V) (input : PublishInput)
      → begin_flush c convert now s ≡ (sends input, client)
      → ((batch : List PublishEntry) × (s.pending ≡ some batch)
          × (client ≡ s)
          × (input
              ≡ record { items = batch; publisher_id = s.publisher_id; sequence = s.pending_seq }))
        ⊎ ((batch : List PublishEntry) × (s.pending ≡ none)
            × (encode_buffer c convert s.buffer ≡ some batch)
            × (client ≡ record s {
              buffer = [];
              pending = some batch;
              pending_seq = s.sequence + 1;
              pending_since = some now;
            })
            × (input ≡ record {
              items = batch;
              publisher_id = s.publisher_id;
              sequence = s.sequence + 1;
            }))
  unfolding begin_flush
  begin_flush-sends now s client input h = elim (Option-cases s.pending) [
    | inr (batch, p) ↦ inl (batch, p, ground arith, ground arith)
    | inl n ↦ elim (Option-cases (encode_buffer c convert s.buffer)) [
      | inl bad ↦ absurd (ground arith)
      | inr (batch, e) ↦ inr (batch, n, e, ground arith, ground arith)
    ]
  ]

  begin_flush-stops :
      (now : ℕ) (s client : WorkflowStreamClient P V) (f : Flush)
      → begin_flush c convert now s ≡ (f, client)
      → ((input : PublishInput) → f ≢ sends input)
      → f ≢ raises timeout_error
      → client ≡ s
  unfolding begin_flush
  begin_flush-stops now s client f h nosend notime = elim (Option-cases s.pending) [
    | inr (batch, p) ↦ ground (
      arith,
      nosend (record { items = batch; publisher_id = s.publisher_id; sequence = s.pending_seq }),
    )
    | inl n ↦ elim (Option-cases (encode_buffer c convert s.buffer)) [
      | inl bad ↦ ground arith
      | inr (batch, e) ↦ ground (
        arith,
        nosend (record { items = batch; publisher_id = s.publisher_id; sequence = s.sequence + 1 }),
      )
    ]
  ]

module _ {P V : Type 0} (c : Codec P) (convert : V → Option P) (s₀ : WorkflowStream P) (id : String)
    (lawful : IsLawful c) (known : id ≢ "") where
  publishes-Inv :
      (w : World P V) (topic : String) (v : PubValue P V) (force : Bool)
      → WorldInv c convert s₀ id w
      → WorldInv c convert s₀ id (record w {
        client = publish_to_topic topic v force w.client;
        published = w.published ++ ((topic, v) ∷ []);
      })
  publishes-Inv w topic v force i =
      publish_rule
        (λ cl.
          Inv c convert s₀ id cl w.flying w.sent w.history (replay c w.history s₀)
            (w.published ++ ((topic, v) ∷ [])))
        topic v force w.client
        (λ event. record {
          done = i.done;
          waiting = i.waiting;
          named = i.named;
          order = ap (λ l. l ++ ((topic, v) ∷ [])) i.order ∙ simp append_assoc;
          items = i.items;
          log = i.log;
          logged = i.logged;
          waits = i.waits;
          sound = i.sound;
          past = i.past;
          flies = i.flies;
        })

  begins_again-Inv :
      (w : World P V) (batch : List PublishEntry)
      → w.client.pending ≡ some batch
      → WorldInv c convert s₀ id w
      → let m : PublishInput = record {
        items = batch;
        publisher_id = w.client.publisher_id;
        sequence = w.client.pending_seq;
      } in
        WorldInv c convert s₀ id (record w { flying = some m; sent = m ∷ w.sent })
  begins_again-Inv w batch p i =
      let held =
        subst (Waits c convert s₀ id w.client i.waiting (last_sequence id (replay c w.history s₀)))
          p i.waits in
      record {
        done = i.done;
        waiting = i.waiting;
        named = i.named;
        order = i.order;
        items = i.items;
        log = i.log;
        logged = i.logged;
        waits = i.waits;
        sound = ((i.named, omega (arith, held.0), inr (refl, p)), i.sound);
        past = i.past;
        flies = (refl, p);
      }

  begins_new-Inv :
      (w : World P V) (now : ℕ) (batch : List PublishEntry)
      → w.client.pending ≡ none
      → encode_buffer c convert w.client.buffer ≡ some batch
      → WorldInv c convert s₀ id w
      → let m : PublishInput = record {
        items = batch;
        publisher_id = w.client.publisher_id;
        sequence = w.client.sequence + 1;
      } in
        WorldInv c convert s₀ id (record w {
          client = record w.client {
            buffer = [];
            pending = some batch;
            pending_seq = w.client.sequence + 1;
            pending_since = some now;
          };
          flying = some m;
          sent = m ∷ w.sent;
        })
  begins_new-Inv w now batch n e i =
      let held =
        subst (Waits c convert s₀ id w.client i.waiting (last_sequence id (replay c w.history s₀)))
          n i.waits in
      record {
        done = i.done;
        waiting = w.client.buffer;
        named = i.named;
        order = i.order ∙ rw held.0 (rw append-nil);
        items = i.items;
        log = i.log;
        logged = i.logged;
        waits = (refl, inl (held.1, e));
        sound = (
          (i.named, omega arith, inr (refl, refl)),
          All-imp (Sent c convert s₀ id w.client) _ w.sent
              (λ m h. (h.0, h.1, elim h.2 [ inl le ↦ inl le | inr (_, p) ↦ cc ])) i.sound,
        );
        past = i.past;
        flies = (refl, refl);
      }

  acknowledged-Inv :
      (w : World P V) (m : PublishInput) (now : ℕ)
      → w.flying ≡ some m
      → In (now, m) w.history
      → WorldInv c convert s₀ id w
      → WorldInv c convert s₀ id
          (record w { client = finish_flush true m.sequence w.client; flying = none })
  unfolding finish_flush
  acknowledged-Inv w m now fl rec i =
      let flight = subst (Flies c convert s₀ id w.client) fl i.flies in
      let held =
        subst (Waits c convert s₀ id w.client i.waiting (last_sequence id (replay c w.history s₀)))
          flight.1 i.waits in
      let taken : m.sequence ≤ last_sequence id (replay c w.history s₀) =
        All-In (λ e. e.1.sequence ≤ last_sequence id (replay c w.history s₀)) w.history (now, m)
          i.past rec in
      record {
        done = i.done;
        waiting = i.waiting;
        named = i.named;
        order = i.order;
        items = i.items;
        log = i.log;
        logged = i.logged;
        waits = elim held.1 [
          | inl (l, _) ↦ absurd (omega arith)
          | inr (l, none_left) ↦ (none_left, omega arith)
        ];
        sound =
            All-imp (Sent c convert s₀ id w.client) _ w.sent (λ x h. (h.0, h.1, inl (omega arith)))
              i.sound;
        past = i.past;
        flies = tt;
      }

  fails-Inv :
      (w : World P V) (m : PublishInput)
      → WorldInv c convert s₀ id w
      → WorldInv c convert s₀ id
          (record w { client = finish_flush false m.sequence w.client; flying = none })
  unfolding finish_flush
  fails-Inv w m i = record {
    done = i.done;
    waiting = i.waiting;
    named = i.named;
    order = i.order;
    items = i.items;
    log = i.log;
    logged = i.logged;
    waits = i.waits;
    sound = i.sound;
    past = i.past;
    flies = tt;
  }

  Waits-le :
      (client : WorkflowStreamClient P V) (waiting : List (Entry P V)) (last : ℕ)
      (pending : Option (List PublishEntry))
      → Waits c convert s₀ id client waiting last pending
      → client.sequence ≤ last
  Waits-le client waiting last none h = omega arith
  Waits-le client waiting last (some batch) h = elim h.1 [
    | inl (l, _) ↦ omega arith
    | inr (l, _) ↦ omega arith
  ]

  -- The server's record of a signal that the stream has taken already.
  records_old-Inv :
      (w : World P V) (now : ℕ) (m : PublishInput)
      → on_publish c now m (replay c w.history s₀) ≡ (ok tt, replay c w.history s₀)
      → m.sequence ≤ last_sequence id (replay c w.history s₀)
      → WorldInv c convert s₀ id w
      → WorldInv c convert s₀ id (record w { history = (now, m) ∷ w.history })
  unfolding replay
  records_old-Inv w now m e le i =
      subst (λ s. Inv c convert s₀ id w.client w.flying w.sent ((now, m) ∷ w.history) s w.published)
        (sym (ap (λ r. r.1) e))
        (record {
          done = i.done;
          waiting = i.waiting;
          named = i.named;
          order = i.order;
          items = i.items;
          log = i.log;
          logged = i.logged;
          waits = i.waits;
          sound = i.sound;
          past = (le, i.past);
          flies = i.flies;
        })

  -- The server's record of the pending batch, which the stream now takes.
  records_new-Inv :
      (w : World P V) (now : ℕ) (m : PublishInput)
      → m.publisher_id ≡ id
      → last_sequence id (replay c w.history s₀) < m.sequence
      → ((on_publish c now m (replay c w.history s₀)).1.log
          ≡ (replay c w.history s₀).log ++ appended c m.items)
        × (last_sequence id (on_publish c now m (replay c w.history s₀)).1 ≡ m.sequence)
      → Sent c convert s₀ id w.client m
      → WorldInv c convert s₀ id w
      → WorldInv c convert s₀ id (record w { history = (now, m) ∷ w.history })
  unfolding replay
  records_new-Inv w now m eid lt (elog, elast) (_, _, inl le) i =
      absurd (omega (arith, Waits-le w.client i.waiting _ w.client.pending i.waits))
  records_new-Inv w now m eid lt (elog, elast) (_, _, inr (eseq, p)) i =
      let held =
        subst (Waits c convert s₀ id w.client i.waiting (last_sequence id (replay c w.history s₀)))
          p i.waits in
      let encoded : encode_buffer c convert i.waiting ≡ some m.items = elim held.1 [
        | inl (_, e) ↦ e
        | inr (l, _) ↦ absurd (omega arith)
      ] in
      record {
        done = i.done ++ i.waiting;
        waiting = [];
        named = i.named;
        order = i.order ∙ simp append_assoc;
        items = i.items ++ appended c m.items;
        log =
            elog
            ∙ ap (λ l. l ++ appended c m.items) i.log
            ∙ append_assoc s₀.log i.items (appended c m.items);
        logged =
            append-AreLogged c convert i.done i.waiting i.items (appended c m.items) i.logged
              (encode_buffer-AreLogged c convert lawful i.waiting m.items encoded);
        waits =
            subst
              (Waits c convert s₀ id w.client []
                (last_sequence id (on_publish c now m (replay c w.history s₀)).1))
              (sym p) (held.0, inr (elast ∙ eseq, refl));
        sound = i.sound;
        past = (
          omega arith,
          All-imp (λ e. e.1.sequence ≤ last_sequence id (replay c w.history s₀))
              (λ e. e.1.sequence ≤ last_sequence id (on_publish c now m (replay c w.history s₀)).1)
              w.history (λ e le. omega arith) i.past,
        );
        flies = i.flies;
      }

  records-Inv :
      (w : World P V) (now : ℕ) (m : PublishInput)
      → In m w.sent
      → WorldInv c convert s₀ id w
      → WorldInv c convert s₀ id (record w { history = (now, m) ∷ w.history })
  records-Inv w now m is_sent i =
      let h : Sent c convert s₀ id w.client m =
        All-In (Sent c convert s₀ id w.client) w.sent m i.sound is_sent in
      let named : m.publisher_id ≢ "" = λ e. known (sym h.0 ∙ e) in
      let same : is_duplicate m (replay c w.history s₀)
          ≡ leb m.sequence (last_sequence id (replay c w.history s₀)) =
        subst
          (λ x.
            is_duplicate m (replay c w.history s₀)
            ≡ leb m.sequence (last_sequence x (replay c w.history s₀)))
          h.0 (is_duplicate_iff c now m (replay c w.history s₀) h.1) in
      elim (Bool-cases (leb m.sequence (last_sequence id (replay c w.history s₀)))) [
        | inl old ↦
            records_old-Inv w now m
              (on_publish_duplicate c now m (replay c w.history s₀) named (same ∙ old))
              (ground arith) i
        | inr new ↦
            let (elog, elast) = on_publish_new c now m (replay c w.history s₀) named (same ∙ new) in
            records_new-Inv w now m h.0 (ground arith)
              (
                elog,
                subst
                    (λ x.
                      last_sequence x (on_publish c now m (replay c w.history s₀)).1 ≡ m.sequence)
                    h.0 elast,
              )
              h i
      ]

  Step-Inv :
      {w u : World P V}
      → Step c convert w u
      → WorldInv c convert s₀ id w
      → WorldInv c convert s₀ id u
  Step-Inv {w} (publishes topic v force) i = publishes-Inv w topic v force i
  Step-Inv {w} (begins now input client free e) i =
      elim (begin_flush-sends c convert now w.client client input e) [
        | inl (batch, p, ec, ei) ↦
            subst
              (λ cl.
                WorldInv c convert s₀ id
                  (record w { client = cl; flying = some input; sent = input ∷ w.sent }))
              (sym ec)
              (subst
                (λ m. WorldInv c convert s₀ id (record w { flying = some m; sent = m ∷ w.sent }))
                (sym ei) (begins_again-Inv w batch p i))
        | inr (batch, n, enc, ec, ei) ↦
            subst
              (λ cl.
                WorldInv c convert s₀ id
                  (record w { client = cl; flying = some input; sent = input ∷ w.sent }))
              (sym ec)
              (subst
                (λ m. WorldInv c convert s₀ id (record w {
                  client = record w.client {
                    buffer = [];
                    pending = some batch;
                    pending_seq = w.client.sequence + 1;
                    pending_since = some now;
                  };
                  flying = some m;
                  sent = m ∷ w.sent;
                }))
                (sym ei) (begins_new-Inv w now batch n enc i))
      ]
  Step-Inv {w} (stops now f client free e nosend notime) i =
      subst (λ cl. WorldInv c convert s₀ id (record w { client = cl }))
        (sym (begin_flush-stops c convert now w.client client f e nosend notime)) i
  Step-Inv {w} (records now m is_sent) i = records-Inv w now m is_sent i
  Step-Inv {w} (acknowledged m now fl rec) i = acknowledged-Inv w m now fl rec i
  Step-Inv {w} (fails m fl) i = fails-Inv w m i

  Reach-Inv :
      {w u : World P V}
      → WorldInv c convert s₀ id w
      → Reach c convert w u
      → WorldInv c convert s₀ id u
  Reach-Inv i here = i
  Reach-Inv i (next r st) = Step-Inv st (Reach-Inv i r)

module _ {P V : Type 0} (c : Codec P) (convert : V → Option P) where
  unsent-false :
      (s : WorkflowStreamClient P V) → unsent s ≡ false → (s.pending ≡ none) × (s.buffer ≡ [])
  unfolding unsent
  unsent-false s h = ground arith

  -- A new client, with nothing on the network.
  unfoldable pub fresh_world : Option ℕ → ℕ → String → World P V
  unfolding new_client
  fresh_world size retry id = record {
    client = new_client size retry id;
    flying = none;
    sent = [];
    history = [];
    published = [];
  }

  fresh_world-Inv :
      (s₀ : WorkflowStream P) (size : Option ℕ) (retry : ℕ) (id : String)
      → lookup id s₀.publishers ≡ none
      → WorldInv c convert s₀ id (fresh_world size retry id)
  unfolding fresh_world replay last_sequence
  fresh_world-Inv s₀ size retry id unknown = record {
    done = [];
    waiting = [];
    named = refl;
    order = refl;
    items = [];
    log = sym (append-nil s₀.log);
    logged = tt;
    waits = (refl, rw (unknown, last_sequence));
    sound = tt;
    past = tt;
    flies = tt;
  }

  module _ (s₀ : WorkflowStream P) (size : Option ℕ) (retry : ℕ) (id : String) (w : World P V)
      (lawful : IsLawful c) (named : id ≢ "") (unknown : lookup id s₀.publishers ≡ none)
      (reached : Reach c convert (fresh_world size retry id) w) where
    reached-Inv : WorldInv c convert s₀ id w
    reached-Inv =
        Reach-Inv c convert s₀ id lawful named (fresh_world-Inv s₀ size retry id unknown) reached

    -- The publisher has a name that the stream does not know, no flush gives a batch up for its
    -- age, and decoding inverts encoding. At every moment, the log holds what it held, then the
    -- items of a first part of what was published: one item for each value, in order, under its
    -- topic and with the payload that it converts to.
    pub published_in_order :
        (done rest : List (Entry P V)) × (items : List (WorkflowStreamItem P)) × (w.published
          ≡ done ++ rest)
        × ((replay c w.history s₀).log ≡ s₀.log ++ items)
        × AreLogged c convert done items
    published_in_order =
        let i = reached-Inv in
        (i.done, i.waiting ++ w.client.buffer, i.items, i.order, i.log, i.logged)

    -- Under the same conditions: once the client has nothing left to send, the log holds what it
    -- held, then one item for each value that was published, none left out, in order, under its
    -- topic and with the payload that it converts to.
    pub published_exactly_once :
        unsent w.client ≡ false
        → (items : List (WorkflowStreamItem P)) × ((replay c w.history s₀).log ≡ s₀.log ++ items)
          × AreLogged c convert w.published items
    published_exactly_once sent_all =
        let i = reached-Inv in
        let (no_batch, no_buffer) = unsent-false w.client sent_all in
        let held =
          subst
            (Waits c convert s₀ id w.client i.waiting (last_sequence id (replay c w.history s₀)))
            no_batch i.waits in
        let all : w.published ≡ i.done = i.order ∙ rw (held.0, no_buffer) (append-nil i.done) in
        (i.items, i.log, subst (λ l. AreLogged c convert l i.items) (sym all) i.logged)
