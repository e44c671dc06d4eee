-- ===== src/Rpc/Call/Patience.antt =====
-- When the requests of an attempt are sent (client.go).
use titanarb_engine.Base.{
  ℕ, ◌+◌, ◌≤◌, ◌≡◌, subst, some, ◌⊎◌, inl, inr, List, [], ◌∷◌, In, arith, Bool-cases, Option-cases,
  sum_cases, get_elem?, if_both,
}
use titanarb_engine.Rpc.Errors.{Failure, call_provider, provider_failure}
use titanarb_engine.Rpc.Provider.{Provider}
use titanarb_engine.Rpc.Choice.{Client, choose_read_provider}
use titanarb_engine.Rpc.Choice.Chosen.{chosen-stands, choose_read_provider-delay}
use titanarb_engine.Rpc.Call.{
  Sent, Turn, Asked, Attempt, serve, approach, dispatch, call_round, give_up,
}

module _ {A : Type 0} (asked : Asked A) (ps : List Provider) where
  -- Every request goes to one of the providers, after the end of its cooldown.
  pub record IsPatient (a : Attempt A) : Type 0 where
    pub each :
        (s : Sent A)
        → In s a.log
        → (p : Provider) × (get_elem? ps s.index ≡ some p) × (p.cooldown_until ≤ s.sent_at)

  give_up-IsPatient : (c : Client) (e : Failure) → IsPatient (give_up asked c e)
  give_up-IsPatient c e = record { each = λ s i. elim i [ ] }

  module _ (turn : Turn A) (i : ℕ) (p : Provider) (stands : get_elem? ps i ≡ some p) where
    serve-IsPatient :
        (at : ℕ) (c : Client) → p.cooldown_until ≤ at → IsPatient (serve asked turn i at c)
    unfolding serve
    serve-IsPatient at c over = elim (sum_cases (call_provider (turn.reply i))) [
      | inr (a, good) ↦ rw (good, serve) (record { each = alone })
      | inl (e, bad) ↦ elim (Bool-cases turn.ended) [
        | inl late ↦ rw (bad, late, serve) (record { each = alone })
        | inr going ↦ elim (Bool-cases (provider_failure e)) [
          | inl blamed ↦ rw (bad, going, blamed, serve) (record { each = alone })
          | inr innocent ↦ rw (bad, going, innocent, serve) (record { each = alone })
        ]
      ]
    ]
      where
        alone :
            {o : Failure ⊎ A} (s : Sent A)
            → In s (record { index = i; sent_at = at; outcome = o } ∷ [])
            → (q : Provider) × (get_elem? ps s.index ≡ some q) × (q.cooldown_until ≤ s.sent_at)
        alone s (inl e) = rw e (p, stands, over)
        alone s (inr h) = elim h [ ]

    approach-IsPatient :
        (wait : ℕ) (c : Client)
        → p.cooldown_until ≤ turn.chosen_at + wait
        → IsPatient (approach asked turn i wait c)
    unfolding approach
    approach-IsPatient wait c over = search (if_both IsPatient, give_up-IsPatient, late)
      where
        late :
            (c' : Client)
            → IsPatient (serve asked turn i (turn.chosen_at + wait + turn.overslept) c')
        late c' = serve-IsPatient (turn.chosen_at + wait + turn.overslept) c' (omega (arith, over))

  dispatch-IsPatient :
      (turn : Turn A) (c : Client) → c.providers ≡ ps → IsPatient (dispatch asked turn c)
  unfolding dispatch
  dispatch-IsPatient turn c same =
      elim (Option-cases (choose_read_provider asked.class turn.chosen_at c)) [
        | inl lost ↦ rw (lost, dispatch) (give_up-IsPatient c _)
        | inr (x, got) ↦
            let (p, stands) = chosen-stands asked.class turn.chosen_at c x.0 x.1 x.2 got in
            let (over, _) =
              choose_read_provider-delay asked.class turn.chosen_at c x.0 p x.1 x.2 stands got in
            rw (got, dispatch)
              (approach-IsPatient turn x.0 p (subst (λ l. get_elem? l x.0 ≡ some p) same stands) x.1
                x.2 over)
      ]

-- Each request of an attempt goes to a provider of the client, and not before its cooldown is over.
pub call_round-IsPatient :
    {A : Type 0} (asked : Asked A) (turn : Turn A) (c : Client)
    → IsPatient asked c.providers (call_round asked turn c)
unfolding call_round
call_round-IsPatient asked turn c =
    search (if_both (IsPatient asked c.providers), give_up-IsPatient asked c.providers, served)
  where
    served :
        (c' : Client)
        → c'.providers ≡ c.providers
        → IsPatient asked c.providers (dispatch asked turn c')
    served c' same = dispatch-IsPatient asked c.providers turn c' same
