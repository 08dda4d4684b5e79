-- ===== src/Session/View/Tests.antt =====
-- A mirror that only remembers its view, and a view of two clients.
use g2mirror.Prelude.{ℕ, All, ◌⊎◌, ◌≡◌, refl, true, false, List, [], ◌∷◌, none, some}
use g2mirror.Session.Client.{is_live_viewing, Client, viewer}
use g2mirror.Session.View.{effective_rank, precedes, pick, best, refresh_view}
use g2mirror.Session.View.Best.{IsFirst, best-IsFirst}
use g2mirror.Session.View.Decided.{FailsOnly, Decides, refresh_view-IsDecided}
use g2mirror.Session.View.Synced.{Shows, Hides}
use g2mirror.Session.Examples.{remembering, client, host_terminal}

-- A viewer of rank 2 and one of rank 1; the host has rank 3.
abbrev clients : List Client
clients = client 7 2 viewer true ∷ client 8 1 viewer true ∷ []

best-IsFirst_example :
    ((best 3 clients ≡ none) × All (λ c. is_live_viewing c ≡ false) clients)
    ⊎ ((b : Client) × (best 3 clients ≡ some b) × IsFirst 3 b clients)
best-IsFirst_example = best-IsFirst 3 clients

chosen : best 3 clients ≡ some (client 8 1 viewer true)
unfolding best pick precedes effective_rank
chosen = refl

refresh_view-IsDecided_example :
    FailsOnly remembering host_terminal
      (refresh_view remembering clients none 3 false (some 0) host_terminal)
    × ((All (λ c. is_live_viewing c ≡ false) clients
          × Hides remembering clients false
              (refresh_view remembering clients none 3 false (some 0) host_terminal))
        ⊎ ((b : Client) × (rows : ℕ) × (cols : ℕ) × IsFirst 3 b clients
            × Decides (remembering.host_size none) 3 false b rows cols
            × Shows remembering rows cols
                (refresh_view remembering clients none 3 false (some 0) host_terminal)))
refresh_view-IsDecided_example =
    refresh_view-IsDecided remembering clients none 3 false (some 0) host_terminal tt
