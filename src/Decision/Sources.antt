-- ===== src/Decision/Sources.antt =====
-- Where the link metrics of openmc_rq.c come from: a file, fixed values by the number of the buffer, or
-- nowhere. `scan` stands for `sscanf` with one of the four formats.
use openmc.Common.{
  ℕ, ◌≡◌, refl, ◌||◌, Option, none, some, List, [], ◌∷◌, leb, if◌then◌else◌, ◌⊎◌, inl, inr, Bool,
  true, false, Bool-cases, arith,
}
use openmc.Double.{Double}
use openmc.Decision.{Metrics, no_metrics}

-- `metrics_source_t`
pub data MetricsSource : Type 0 where
  source_file source_synthetic source_disabled : MetricsSource

-- The formats `loss_a=%lf`, `loss_b=%lf`, `rtt_a=%lf` and `rtt_b=%lf`.
pub data Key : Type 0 where
  loss_a loss_b rtt_a rtt_b : Key

pub record Values (W : Type 0) : Type 0 where
  pub la : W
  pub lb : W
  pub ra : W
  pub rb : W

module _ {W : Type 0} ⦃d : Double W⦄ where
  open d use {lit, minus_one, lt}

  unfoldable pub set_synthetic_metrics : ℕ → Metrics W
  set_synthetic_metrics packet_counter =
      if leb packet_counter 400
      then record {
        a = record { loss = lit 0 2; rtt_ms = lit 200 1 };
        b = record { loss = lit 0 2; rtt_ms = lit 400 1 };
      }
      else if leb packet_counter 800
      then record {
        a = record { loss = lit 0 2; rtt_ms = lit 250 1 };
        b = record { loss = lit 5 2; rtt_ms = lit 450 1 };
      }
      else if leb packet_counter 1200
      then record {
        a = record { loss = lit 10 2; rtt_ms = lit 600 1 };
        b = record { loss = lit 2 2; rtt_ms = lit 350 1 };
      }
      else if leb packet_counter 1600
      then record {
        a = record { loss = lit 8 2; rtt_ms = lit 800 1 };
        b = record { loss = lit 8 2; rtt_ms = lit 800 1 };
      }
      else record {
        a = record { loss = lit 1 2; rtt_ms = lit 300 1 };
        b = record { loss = lit 3 2; rtt_ms = lit 350 1 };
      }

  abbrev pub retain : Option (Metrics W) → Metrics W → Metrics W
  retain none old = old
  retain (some m) old = m

  abbrev pub unread : Values W
  unread = record { la = minus_one; lb = minus_one; ra = minus_one; rb = minus_one }

  module _ (scan : Key → List ℕ → Option W) where
    -- One line: the first format that fits takes it.
    unfoldable pub scan_line : List ℕ → Values W → Values W
    scan_line line v = elim (scan loss_a line) [
      | some x ↦ record v { la = x }
      | none ↦ elim (scan loss_b line) [
        | some x ↦ record v { lb = x }
        | none ↦ elim (scan rtt_a line) [
          | some x ↦ record v { ra = x }
          | none ↦ elim (scan rtt_b line) [ some x ↦ record v { rb = x } | none ↦ v ]
        ]
      ]
    ]

    unfoldable pub scan_lines : List (List ℕ) → Values W → Values W
    scan_lines [] v = v
    scan_lines (line ∷ rest) v = scan_lines rest (scan_line line v)

    unfoldable pub complete_metrics : Values W → Option (Metrics W)
    complete_metrics v =
        if lt v.la (lit 0 0) || (lt v.lb (lit 0 0) || (lt v.ra (lit 0 0) || lt v.rb (lit 0 0)))
        then none
        else some (record {
          a = record { loss = v.la; rtt_ms = v.ra };
          b = record { loss = v.lb; rtt_ms = v.rb };
        })

    -- The lines of the file, if it could be opened.
    unfoldable pub fetch_metrics_from_file : Option (List (List ℕ)) → Option (Metrics W)
    fetch_metrics_from_file none = none
    fetch_metrics_from_file (some lines) = complete_metrics (scan_lines lines unread)

    -- `g_current_metrics` before the n-th buffer is handled.
    unfoldable pub next_metrics : MetricsSource → ℕ → Option (List (List ℕ)) → Metrics W → Metrics W
    next_metrics source_file n file old = retain (fetch_metrics_from_file file) old
    next_metrics source_synthetic n file old = set_synthetic_metrics n
    next_metrics source_disabled n file old = no_metrics

    -- The last value that a line gives for a key.
    abbrev pub last_value : Key → List (List ℕ) → W → W
    last_value k [] x = x
    last_value k (line ∷ rest) x = last_value k rest (elim (scan k line) [ some y ↦ y | none ↦ x ])

    -- A line fits one format at most.
    abbrev pub IsExclusive : Type 0
    IsExclusive =
        (line : List ℕ)
        → (((scan loss_a line ≡ none) ⊎ (scan loss_b line ≡ none))
            × ((scan loss_a line ≡ none) ⊎ (scan rtt_a line ≡ none))
            × ((scan loss_a line ≡ none) ⊎ (scan rtt_b line ≡ none))
            × ((scan loss_b line ≡ none) ⊎ (scan rtt_a line ≡ none))
            × ((scan loss_b line ≡ none) ⊎ (scan rtt_b line ≡ none))
            × ((scan rtt_a line ≡ none) ⊎ (scan rtt_b line ≡ none)))

    abbrev pub last_values : List (List ℕ) → Values W → Values W
    last_values lines v = record {
      la = last_value loss_a lines v.la;
      lb = last_value loss_b lines v.lb;
      ra = last_value rtt_a lines v.ra;
      rb = last_value rtt_b lines v.rb;
    }

    scan_line-last :
        (line : List ℕ) (v : Values W) → IsExclusive → scan_line line v ≡ last_values (line ∷ []) v
    unfolding scan_line
    scan_line-last line v ex = ground (arith, ex line)

    pub scan_lines-last :
        (lines : List (List ℕ)) (v : Values W)
        → IsExclusive
        → scan_lines lines v ≡ last_values lines v
    unfolding scan_lines
    scan_lines-last [] v ex = refl
    scan_lines-last (line ∷ rest) v ex = rw (scan_line-last line v ex) (scan_lines-last rest _ ex)

    -- Whether a line gives a value for the key.
    abbrev pub given : Key → List (List ℕ) → Bool
    given k [] = false
    given k (line ∷ rest) = elim (scan k line) [ some y ↦ true | none ↦ given k rest ]

    -- The key's last value in the file, -1 where there is none.
    abbrev pub in_file : Key → List (List ℕ) → W
    in_file k lines = last_value k lines minus_one

    -- The file gives the key, and its last value is not negative.
    abbrev pub IsUsable : List (List ℕ) → Key → Type 0
    IsUsable lines k = (given k lines ≡ true) × (lt (in_file k lines) (lit 0 0) ≡ false)

    abbrev pub IsRefused : List (List ℕ) → Key → Type 0
    IsRefused lines k = (given k lines ≡ false) ⊎ (lt (in_file k lines) (lit 0 0) ≡ true)

    not_given :
        (k : Key) (lines : List (List ℕ)) (x : W) → given k lines ≡ false → last_value k lines x ≡ x
    not_given k [] x e = refl
    not_given k (line ∷ rest) x e = ground (arith, not_given k rest x)

    usable :
        (k : Key) (lines : List (List ℕ))
        → lt minus_one (lit 0 0) ≡ true
        → lt (in_file k lines) (lit 0 0) ≡ false
        → IsUsable lines k
    usable k lines below e = elim (Bool-cases (given k lines)) [
      | inl there ↦ (there, e)
      | inr lost ↦ ground (arith, not_given k lines minus_one lost)
    ]

    -- Where -1 is below zero and a line fits one format at most, in file mode: without a file the next
    -- buffer has the metrics before; with one, either each of the four keys is given and its last value
    -- is not negative, and these four values are the metrics, or some key is not given or its last
    -- value is negative, and the metrics are those before.
    pub next_metrics-last :
        (n : ℕ) (lines : List (List ℕ)) (old : Metrics W)
        → IsExclusive
        → lt minus_one (lit 0 0) ≡ true
        → (next_metrics source_file n none old ≡ old)
          × ((((k : Key) → IsUsable lines k)
                × (next_metrics source_file n (some lines) old ≡ record {
                  a = record { loss = in_file loss_a lines; rtt_ms = in_file rtt_a lines };
                  b = record { loss = in_file loss_b lines; rtt_ms = in_file rtt_b lines };
                }))
              ⊎ (((k : Key) × IsRefused lines k)
                  × (next_metrics source_file n (some lines) old ≡ old)))
    unfolding next_metrics fetch_metrics_from_file complete_metrics
    next_metrics-last n lines old ex below = (refl, rw (scan_lines-last lines unread ex) cases)
      where
        negative : Key → Bool
        negative k = lt (in_file k lines) (lit 0 0)

        all_usable :
            negative loss_a ≡ false
            → negative loss_b ≡ false
            → negative rtt_a ≡ false
            → negative rtt_b ≡ false
            → (k : Key) → IsUsable lines k
        all_usable la lb ra rb loss_a = usable loss_a lines below la
        all_usable la lb ra rb loss_b = usable loss_b lines below lb
        all_usable la lb ra rb rtt_a = usable rtt_a lines below ra
        all_usable la lb ra rb rtt_b = usable rtt_b lines below rb

        cases :
            (((k : Key) → IsUsable lines k)
              × (retain (complete_metrics (last_values lines unread)) old ≡ record {
                a = record { loss = in_file loss_a lines; rtt_ms = in_file rtt_a lines };
                b = record { loss = in_file loss_b lines; rtt_ms = in_file rtt_b lines };
              }))
            ⊎ (((k : Key) × IsRefused lines k)
                × (retain (complete_metrics (last_values lines unread)) old ≡ old))
        cases = elim (Bool-cases (negative loss_a)) [
          | inl e ↦ simp e (inr ((loss_a, inr e), refl))
          | inr la ↦ elim (Bool-cases (negative loss_b)) [
            | inl e ↦ simp (la, e) (inr ((loss_b, inr e), refl))
            | inr lb ↦ elim (Bool-cases (negative rtt_a)) [
              | inl e ↦ simp (la, lb, e) (inr ((rtt_a, inr e), refl))
              | inr ra ↦ elim (Bool-cases (negative rtt_b)) [
                | inl e ↦ simp (la, lb, ra, e) (inr ((rtt_b, inr e), refl))
                | inr rb ↦ simp (la, lb, ra, rb) (inl (all_usable la lb ra rb, refl))
              ]
            ]
          ]
        ]
