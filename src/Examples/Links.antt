-- ===== src/Examples/Links.antt =====
-- A connection that is refused at the start, made, lost, and made again.
use game_login.Base.{true, List, [], ◌∷◌}
use game_login.Reconnects.{ip, refused, not_taken, connected, start_link}
use game_login.Reconnects.History.{
  Event, lost, due, run, IsLinked, HasSocket, AllSockets, run-start_link,
}

abbrev events : List Event
events = due not_taken ∷ due connected ∷ lost ∷ due refused ∷ due connected ∷ []

refused-HasSocket : HasSocket refused
refused-HasSocket e = cc

events-AllSockets : AllSockets events
events-AllSockets = (λ e. cc, (λ e. cc, (λ e. cc, (λ e. cc, tt))))

run-start_link_example : IsLinked true (run ip events (start_link ip refused))
run-start_link_example = run-start_link ip refused events refused-HasSocket events-AllSockets
