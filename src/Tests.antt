-- ===== src/Tests.antt =====
-- Tests of the model on concrete inputs, and the theorems at inputs that meet their hypotheses.
mod Sample
mod Wire
mod StoreSample
mod SelectionTests
mod HashTests
mod SelectionExamples
mod OcspExamples
mod ValidateExamples
mod StoreExamples
mod CacheExamples
