-- ===== src/Llm.antt =====
-- llm: the providers, and what they make of a completion.
pub mod Spans
pub mod Normalize
pub mod Groq
pub mod Bedrock
pub mod Factory
