-- ===== src/Video/Renderer/Refinement.antt =====
-- The renderer's queue as a queue that forgets: what is shown keeps its order, and the queue is the end
-- of what was given.
use web_rtc_weak_network_vid.Common.{◌≡◌, ◌≤◌, List, [], ◌∷◌, ◌++◌, length}

module _ {F : Type 0} where
  -- The first list is what is left of the second when some entries are taken out.
  pub data IsPart : List F → List F → Type 0 where
    nothing : IsPart [] []
    kept :
        (frame : F) {part whole : List F}
        → IsPart part whole
        → IsPart (frame ∷ part) (frame ∷ whole)
    lost : (frame : F) {part whole : List F} → IsPart part whole → IsPart part (frame ∷ whole)

  -- The queue is the end of what was given, and at most three frames long; what was shown came before it,
  -- in order and each frame once.
  pub record IsLossyQueue (given shown queue : List F) : Type 0 where
    pub passed : List F
    pub order : given ≡ passed ++ queue
    pub part : IsPart shown passed
    pub short : length queue ≤ 3
