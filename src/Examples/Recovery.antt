-- ===== src/Examples/Recovery.antt =====
-- Two queued documents, one pass that fails, and two that publish one document each.
use nexus_rag.Base.{◌≡◌, refl, arith, true, false, [], ◌∷◌, ◌++◌}
use nexus_rag.Document.{Uuid, queued}
use nexus_rag.Ingest.Recovery.{Queue, Try, refused, acknowledged, reconcile_passes}
use nexus_rag.Ingest.Recovery.Keyed.{IsKeyed}
use nexus_rag.Ingest.Recovery.Kept.{IsHandedOff, Lands}
use nexus_rag.Ingest.Recovery.Drained.{AllSent, reconcile_passes-AllSent}
use nexus_rag.Examples.Office.{document}

abbrev waiting : Queue
waiting = record {
  documents = document queued ∷ record (document queued) { id = 6; created_at = 800 } ∷ [];
  messages = [];
}

abbrev broker_down : Uuid → Try
broker_down id = record { publication = refused; commits = true; now = 3000 }

abbrev broker_up : Uuid → Try
broker_up id = record { publication = acknowledged; commits = true; now = 3015 }

up-Lands : Lands broker_up
up-Lands id = (refl, refl)

waiting-IsKeyed : IsKeyed waiting.documents
waiting-IsKeyed = ((λ e. omega (arith, e), tt), (tt, tt))

waiting-IsHandedOff : IsHandedOff waiting
waiting-IsHandedOff = (λ e. absurd (never e), (λ e. absurd (never e), tt))
  where
    never : false ≡ true → ⊥
    never e = cc

reconcile_passes-AllSent_example :
    AllSent (reconcile_passes 1 ((broker_down ∷ []) ++ broker_up ∷ broker_up ∷ []) waiting)
reconcile_passes-AllSent_example =
    reconcile_passes-AllSent 1 (broker_down ∷ []) (broker_up ∷ broker_up ∷ []) waiting
      (up-Lands, (up-Lands, tt)) waiting-IsKeyed waiting-IsHandedOff (omega arith)
