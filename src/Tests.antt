-- ===== src/Tests.antt =====
-- The theorems at concrete inputs.
pub mod Samples
pub mod SampleApi
pub mod TaskSamples
pub mod InstanceSamples
pub mod ReferenceSamples
mod TagTests
mod StatusTests
mod TaskTests
mod InstanceTests
mod FactoryTests
mod ReferenceTests
mod EndpointTests
