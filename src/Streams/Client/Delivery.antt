-- ===== src/Streams/Client/Delivery.antt =====
-- A publisher of _client.py, a stream of _stream.py, and a network between them that may lose a
-- signal, delay it past later ones, or bring it more than once.
use sdk_python.Prelude.{
  ℕ, ◌≡◌, refl, subst, ◌≢◌, ◌⊎◌, inl, inr, String, Bool, true, false, Option, none, some, List, [],
  ◌∷◌, ◌++◌, arith, Option-cases, string_eq,
}
use mathlib.Core.Option.{some-injective}
use sdk_python.Streams.Types.{
  Codec, IsLawful, WorkflowStreamItem, PublishEntry, PublishInput, timeout_error,
}
use sdk_python.Streams.Stream.{WorkflowStream, on_publish}
use sdk_python.Streams.Stream.Log.{appended}
use sdk_python.Streams.Client.{
  PubValue, prebuilt, value, WorkflowStreamClient, Flush, raises, sends, to_payload, encode_buffer,
  publish_to_topic, begin_flush, finish_flush,
}

abbrev pub Entry : Type 0 → Type 0 → Type 0
Entry P V = String × PubValue P V

-- The client with the signal that it waits for, every signal that it ever sent, and the signals
-- that the server recorded, newest first, each with the time at which the workflow handles it.
-- `published` is what the application has published so far.
pub record World (P V : Type 0) : Type 0 where
  pub client : WorkflowStreamClient P V
  pub flying : Option PublishInput
  pub sent : List PublishInput
  pub history : List (ℕ × PublishInput)
  pub published : List (Entry P V)

abbrev pub In : {A : Type 0} → A → List A → Type 0
In a [] = ⊥
In a (x ∷ xs) = (a ≡ x) ⊎ In a xs

module _ {P : Type 0} (c : Codec P) where
  -- The workflow's stream once it has handled the history.
  unfoldable pub replay : List (ℕ × PublishInput) → WorkflowStream P → WorkflowStream P
  replay [] s = s
  replay ((now, input) ∷ history) s = (on_publish c now input (replay history s)).1

module _ {P V : Type 0} (c : Codec P) (convert : V → Option P) where
  -- One step of the application, the client, the network or the server. An acknowledged signal
  -- is one that the server has recorded. No flush here gives a batch up for its age.
  pub data Step (w : World P V) : World P V → Type 0 where
    publishes :
        (topic : String) (v : PubValue P V) (force : Bool)
        → Step w (record w {
          client = publish_to_topic topic v force w.client;
          published = w.published ++ ((topic, v) ∷ []);
        })
    begins :
        (now : ℕ) (input : PublishInput) (client : WorkflowStreamClient P V)
        → w.flying ≡ none
        → begin_flush c convert now w.client ≡ (sends input, client)
        → Step w (record w { client = client; flying = some input; sent = input ∷ w.sent })
    stops :
        (now : ℕ) (f : Flush) (client : WorkflowStreamClient P V)
        → w.flying ≡ none
        → begin_flush c convert now w.client ≡ (f, client)
        → ((input : PublishInput) → f ≢ sends input)
        → f ≢ raises timeout_error
        → Step w (record w { client = client })
    records :
        (now : ℕ) (input : PublishInput)
        → In input w.sent
        → Step w (record w { history = (now, input) ∷ w.history })
    acknowledged :
        (input : PublishInput) (now : ℕ)
        → w.flying ≡ some input
        → In (now, input) w.history
        → Step w (record w { client = finish_flush true input.sequence w.client; flying = none })
    fails :
        (input : PublishInput)
        → w.flying ≡ some input
        → Step w (record w { client = finish_flush false input.sequence w.client; flying = none })

  pub data Reach (w : World P V) : World P V → Type 0 where
    here : Reach w w
    next : {u v : World P V} → Reach w u → Step u v → Reach w v

  -- A payload is what a published value comes to: a prebuilt one is itself, another converts to it.
  abbrev pub Holds : PubValue P V → P → Type 0
  Holds (prebuilt p) q = p ≡ q
  Holds (value v) q = convert v ≡ some q

  -- The items are the published values, one for each and in order: none is missing.
  abbrev pub AreLogged : List (Entry P V) → List (WorkflowStreamItem P) → Type 0
  AreLogged [] [] = Unit
  AreLogged (e ∷ entries) (i ∷ items) =
      (i.topic ≡ e.0) × (i.offset ≡ 0) × Holds e.1 i.payload × AreLogged entries items
  AreLogged [] (_ ∷ _) = ⊥
  AreLogged (_ ∷ _) [] = ⊥

  pub append-AreLogged :
      (xs ys : List (Entry P V)) (is js : List (WorkflowStreamItem P))
      → AreLogged xs is
      → AreLogged ys js
      → AreLogged (xs ++ ys) (is ++ js)
  append-AreLogged [] ys [] js h k = k
  append-AreLogged (x ∷ xs) ys (i ∷ is) js (t, o, p, h) k =
      (t, o, p, append-AreLogged xs ys is js h k)
  append-AreLogged [] ys (_ ∷ _) js h k = absurd h
  append-AreLogged (_ ∷ _) ys [] js h k = absurd h

  to_payload-Holds : (v : PubValue P V) (p : P) → to_payload c convert v ≡ some p → Holds v p
  unfolding to_payload
  to_payload-Holds (prebuilt q) p h = some-injective q p h
  to_payload-Holds (value v) p h = h

  pub encode_buffer-AreLogged :
      IsLawful c
      → (entries : List (Entry P V)) (batch : List PublishEntry)
      → encode_buffer c convert entries ≡ some batch
      → AreLogged entries (appended c batch)
  unfolding encode_buffer appended
  encode_buffer-AreLogged lawful [] batch h =
      subst (λ b. AreLogged [] (appended c b)) (some-injective [] batch h) tt
  encode_buffer-AreLogged lawful ((topic, v) ∷ entries) batch h =
      elim (Option-cases (to_payload c convert v)) [
        | inl e ↦ absurd (ground arith)
        | inr (p, e) ↦ elim (Option-cases (encode_buffer c convert entries)) [
          | inl n ↦ absurd (ground arith)
          | inr (out, eo) ↦
              let entry : PublishEntry = record { topic = topic; payload = c.encode p } in
              let whole : entry ∷ out ≡ batch = ground arith in
              subst (λ b. AreLogged ((topic, v) ∷ entries) (appended c b)) whole
                (rw (appended, lawful p)
                  (
                    refl,
                    refl,
                    to_payload-Holds v p e,
                    encode_buffer-AreLogged lawful entries out eo,
                  ))
        ]
      ]
